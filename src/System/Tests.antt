-- ===== src/System/Tests.antt =====
-- A server that claims a job, is asked to cancel it, ends it and starts again.
use circleftp_jellyfin.Base.{ℕ, ◌≡◌, refl, [], ◌∷◌, none, some, true, false, arith}
use circleftp_jellyfin.Base.Text.{codes}
use circleftp_jellyfin.Circleftp.Text.Names.{Platform}
use circleftp_jellyfin.Downloads.Model.{Download, DownloadFile, DownloadStatus, FileStatus}
use circleftp_jellyfin.Downloads.Fetcher.{unreachable}
use circleftp_jellyfin.Downloads.Job.{Config, FileWorld}
use circleftp_jellyfin.Downloads.Queue.{drain, next_queued, claim, start_row, abort}
use circleftp_jellyfin.Downloads.Service.Invariant.{IsConsistent}
use circleftp_jellyfin.Routes.Downloads.{cancel, handle}
use circleftp_jellyfin.System.{
  Server, queue_of, request, wake_up, run_job, restart, Reach, here, next, requested, woken, ran,
  restarted,
}
use circleftp_jellyfin.System.Claims.{IsSound}
use circleftp_jellyfin.System.Reachable.{Reach-IsSound}

abbrev platform : Platform
platform = record { pathname = λ url. some url; decode_component = λ t. some t; number = λ t. none }

abbrev config : Config
config = record {
  media_root = codes "/srv";
  max_attempts = 3;
  min_free_gib = 5;
  stall_timeout = 60000;
}

-- No host answers.
abbrev worlds : ℕ → FileWorld
worlds _ = record {
  cancel_arrives = false;
  attempts = λ k. record {
    probed = none;
    free = none;
    host = λ _. unreachable;
    is_aborted = false;
    message = codes "unreachable";
    now = 100;
  };
}

abbrev film : DownloadFile
film = record {
  id = 7;
  url = codes "http://host/a.mkv";
  rel_path = codes "a.mkv";
  label = codes "a";
  season = none;
  episode = none;
  status = FileStatus.pending;
  size_bytes = none;
  downloaded_bytes = 0;
  attempts = 0;
  error = none;
  finished_at = none;
}

abbrev waiting : Download
waiting = record {
  id = 4;
  post_id = 9;
  title = codes "Film";
  folder_name = codes "Film";
  status = DownloadStatus.queued;
  total_bytes = none;
  downloaded_bytes = 0;
  error = none;
  seasons = [];
  cancel_requested = false;
  user_id = none;
  files = film ∷ [];
  created_at = 10;
  started_at = none;
  finished_at = none;
}

waiting-IsConsistent : IsConsistent waiting
waiting-IsConsistent = record {
  closed = λ e. cc;
  idle = λ e. (refl, tt);
  stamped = refl;
  keys = (refl, tt);
}

abbrev idle : Server
idle = record {
  state = record { downloads = waiting ∷ []; disk = λ _. none; events = [] };
  running = 0;
  is_stopped = false;
  in_flight = [];
}

idle-IsSound : IsSound 1 (queue_of idle)
unfolding abort
idle-IsSound = record {
  table = record { rows = (waiting-IsConsistent, tt); ids = (refl, tt) };
  within = omega arith;
  counted = refl;
  distinct = tt;
  matched = λ i. ground arith;
}

abbrev busy : Server
busy = request platform (codes "/srv") 30 (cancel 4) (wake_up 1 20 idle)

abbrev after : Server
after = restart (run_job config worlds 200 4 busy)

in_flight : abort 4 (queue_of busy) ≡ true
unfolding abort request handle wake_up drain next_queued claim start_row
in_flight = refl

path : Reach platform (codes "/srv") config 1 idle after
path =
    next
      (next (next (next here (woken 20 idle)) (requested 30 (cancel 4) (wake_up 1 20 idle) tt))
        (ran worlds 200 4 busy in_flight))
      (restarted (run_job config worlds 200 4 busy))

Reach-IsSound_example : IsSound 1 (queue_of after)
Reach-IsSound_example = Reach-IsSound platform (codes "/srv") config 1 path idle-IsSound
