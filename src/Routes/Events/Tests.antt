-- ===== src/Routes/Events/Tests.antt =====
-- The theorems on the streams of routes/events.ts at one stream and one download.
use circleftp_jellyfin.Base.{◌≤◌, refl, List, [], ◌∷◌, none, false, arith}
use circleftp_jellyfin.Base.Text.{codes}
use circleftp_jellyfin.Downloads.Model.{Download, DownloadStatus}
use circleftp_jellyfin.Downloads.Service.{created}
use circleftp_jellyfin.Routes.Events.{
  listed, Connection, Hub, Action, open_stream, read, resume, close, publish, act, act_all,
  listener_count,
}
use circleftp_jellyfin.Routes.Events.Laws.{
  AllSmooth, AllInStep, act_all-AllInStep, act_all-missed, act_all-leak,
}

abbrev film : Download
film = record {
  id = 4;
  post_id = 9;
  title = codes "Film";
  folder_name = codes "Film";
  status = DownloadStatus.queued;
  total_bytes = none;
  downloaded_bytes = 0;
  error = none;
  seasons = [];
  cancel_requested = false;
  user_id = none;
  files = [];
  created_at = 10;
  started_at = none;
  finished_at = none;
}

abbrev quiet : Hub
quiet = record { table = []; connections = [] }

abbrev actions : List Action
actions = open_stream 1 ∷ read 1 ∷ resume 1 ∷ publish (created film) (film ∷ []) ∷ close 1 ∷ []

actions-AllSmooth : AllSmooth actions quiet
unfolding act
actions-AllSmooth = (tt, ((tt, omega arith), (tt, (((λ id. refl), (refl, tt)), (tt, tt)))))

act_all-AllInStep_example : AllInStep (act_all actions quiet)
act_all-AllInStep_example = act_all-AllInStep actions quiet actions-AllSmooth tt

abbrev waiting : Connection
waiting = record { id = 1; stage = listed []; is_gone = false; sent = [] }

missed_run : ¬ AllInStep (
    act_all
      (publish (created film) (film ∷ []) ∷ resume 1 ∷ [])
      (record { table = []; connections = waiting ∷ [] }))
missed_run = act_all-missed [] (film ∷ []) [] waiting film refl refl refl refl refl

leaked_once :
    1
    ≤ listener_count (
        act_all
          (close 1 ∷ resume 1 ∷ close 1 ∷ [])
          (record { table = []; connections = waiting ∷ [] }))
leaked_once = act_all-leak [] [] waiting (close 1 ∷ []) refl refl
