-- ===== src/Downloads/Service/Tests.antt =====
-- The theorems on the requests of downloads/service.ts and on downloads/queue.ts at concrete
-- inputs: a table with a failed job and a waiting job of the same title.
use circleftp_jellyfin.Base.{
  ℕ, ◌+◌, ◌≡◌, refl, suc, [], ◌∷◌, Option, none, some, true, false, All, arith,
}
use circleftp_jellyfin.Base.Text.{codes}
use circleftp_jellyfin.Base.Result.{Result, ok, err}
use circleftp_jellyfin.Circleftp.Plan.{DownloadPlan}
use circleftp_jellyfin.Downloads.Model.{
  DownloadStatus, FileStatus, DownloadFile, Download, is_running,
}
use circleftp_jellyfin.Downloads.Service.{
  State, CreateOptions, Keys, create_download, request_cancel, retry_download, delete_download,
}
use circleftp_jellyfin.Downloads.Service.Invariant.{IsConsistent}
use circleftp_jellyfin.Downloads.Service.Requests.{in_flight_count}
use circleftp_jellyfin.Downloads.Service.Table.{
  IsTable, request_cancel-IsTable, retry_download-IsTable, create_download-IsTable,
  delete_download-IsTable, retry_download-in_flight, create_download-in_flight,
}
use circleftp_jellyfin.Downloads.Service.Race.{check_create, finish_create, create_download-race}
use circleftp_jellyfin.Downloads.Queue.{
  QueueState, next_queued, recover_row, recover_from_crash, wake,
}
use circleftp_jellyfin.Downloads.Queue.Recovery.{IsRecovered, recover_from_crash-IsConsistent}
use circleftp_jellyfin.Downloads.Queue.Drain.{
  IsOldest, IsDrained, next_queued-IsOldest, wake-IsDrained,
}

abbrev file : ℕ → FileStatus → DownloadFile
file id status = record {
  id = id;
  url = codes "http://host/a.mkv";
  rel_path = codes "a.mkv";
  label = codes "a";
  season = none;
  episode = none;
  status = status;
  size_bytes = none;
  downloaded_bytes = 0;
  attempts = 0;
  error = none;
  finished_at = none;
}

abbrev row : ℕ → ℕ → DownloadStatus → Option ℕ → FileStatus → ℕ → Download
row id post_id status finished_at file_status created_at = record {
  id = id;
  post_id = post_id;
  title = codes "Film";
  folder_name = codes "Film";
  status = status;
  total_bytes = none;
  downloaded_bytes = 0;
  error = none;
  seasons = [];
  cancel_requested = false;
  user_id = none;
  files = file (10 + id) file_status ∷ [];
  created_at = created_at;
  started_at = none;
  finished_at = finished_at;
}

abbrev over : Download
over = row 1 9 DownloadStatus.failed (some 50) FileStatus.failed 10

abbrev waiting : Download
waiting = row 2 9 DownloadStatus.queued none FileStatus.pending 20

abbrev transferring : Download
transferring = row 3 8 DownloadStatus.running none FileStatus.running 30

over-IsConsistent : IsConsistent over
over-IsConsistent = record {
  closed = λ _. (refl, tt);
  idle = λ e. cc;
  stamped = refl;
  keys = (refl, tt);
}

waiting-IsConsistent : IsConsistent waiting
waiting-IsConsistent = record {
  closed = λ e. cc;
  idle = λ _. (refl, tt);
  stamped = refl;
  keys = (refl, tt);
}

transferring-IsConsistent : IsConsistent transferring
transferring-IsConsistent = record {
  closed = λ e. cc;
  idle = λ e. cc;
  stamped = refl;
  keys = (refl, tt);
}

abbrev shelf : State
shelf = record { downloads = over ∷ waiting ∷ transferring ∷ []; disk = λ _. none; events = [] }

shelf-IsTable : IsTable shelf.downloads
shelf-IsTable = record {
  rows = (over-IsConsistent, (waiting-IsConsistent, (transferring-IsConsistent, tt)));
  ids = (refl, (refl, (refl, tt)));
}

abbrev value : Result State → State
value (ok s) = s
value (err e) = shelf

abbrev options : CreateOptions
options = record { post_id = 5; seasons = []; user_id = 1 }

abbrev plan : DownloadPlan
plan = record {
  folder = codes "Serie";
  files =
      record {
        url = codes "http://host/b.mkv";
        rel_path = codes "b.mkv";
        label = codes "b";
        season = none;
        episode = none;
      }
      ∷ [];
  seasons = [];
  type = codes "series";
}

abbrev keys : Keys
keys = record { download = 4; file = λ i. 20 + i }

abbrev cancelled : State
cancelled = value (request_cancel 2 99 shelf)

abbrev retried : State
retried = value (retry_download 1 shelf)

abbrev deleted : State
deleted = value (delete_download (codes "/srv") 1 true shelf)

abbrev created : State
created = value (create_download options (ok (codes "Serie", plan)) keys 70 shelf)

IsTable-cancelled : IsTable cancelled.downloads
unfolding request_cancel
IsTable-cancelled = request_cancel-IsTable 2 99 shelf cancelled shelf-IsTable refl

IsTable-retried : IsTable retried.downloads
unfolding retry_download
IsTable-retried = retry_download-IsTable 1 shelf retried shelf-IsTable refl

IsTable-deleted : IsTable deleted.downloads
unfolding delete_download
IsTable-deleted = delete_download-IsTable (codes "/srv") 1 true shelf deleted shelf-IsTable refl

IsTable-created : IsTable created.downloads
unfolding create_download
IsTable-created =
    create_download-IsTable options (ok (codes "Serie", plan)) keys 70 shelf created
      (λ i j e. omega (arith, e)) refl shelf-IsTable refl

-- The title 9 was in flight once; after the retry it is in flight twice.
retried_twice : in_flight_count 9 retried.downloads ≡ suc (in_flight_count 9 shelf.downloads)
unfolding retry_download
retried_twice = retry_download-in_flight 1 shelf retried over shelf-IsTable refl refl

in_flight_once : (in_flight_count 5 shelf.downloads ≡ 0) × (in_flight_count 5 created.downloads ≡ 1)
unfolding create_download
in_flight_once =
    create_download-in_flight options (ok (codes "Serie", plan)) keys 70 shelf created refl

abbrev other_keys : Keys
other_keys = record { download = 90; file = λ i. 95 + i }

-- Two requests for the title 5, which nobody has asked for before.
create_download-race_example :
    (check_create options shelf ≡ ok tt)
    × ((s' : State) × (finish_create options (ok (codes "Serie", plan)) keys 70 shelf ≡ ok s')
        × ((s'' : State) × (finish_create options (ok (codes "Serie", plan)) other_keys 71 s'
              ≡ ok s'')
            × (in_flight_count 5 s''.downloads ≡ 2)))
unfolding check_create
create_download-race_example =
    create_download-race options options (codes "Serie") (codes "Serie") plan plan keys other_keys
      70 71 shelf refl refl refl refl

IsOldest-shelf : IsOldest shelf.downloads (next_queued shelf.downloads)
IsOldest-shelf = next_queued-IsOldest shelf.downloads

recover_from_crash-IsConsistent_example :
    All (λ d. IsConsistent (recover_row d) × IsRecovered d (recover_row d)) shelf.downloads
    × All IsConsistent (recover_from_crash shelf.downloads)
    × All (λ d. is_running d.status ≡ false) (recover_from_crash shelf.downloads)
recover_from_crash-IsConsistent_example =
    recover_from_crash-IsConsistent shelf.downloads shelf-IsTable.rows

abbrev queue : QueueState
queue = record { downloads = shelf.downloads; running = 1; is_stopped = false; in_flight = 3 ∷ [] }

wake-IsDrained_example : IsDrained 2 (wake 2 60 queue)
wake-IsDrained_example = wake-IsDrained 2 60 queue (omega arith) refl
