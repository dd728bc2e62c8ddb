-- ===== src/Downloads/Progress/Tests.antt =====
-- The theorems on the chain of progress writes at a job of one file of ten bytes, with one report of
-- four of them.
use circleftp_jellyfin.Base.{◌≡◌, refl, [], ◌∷◌, none, some, false, find, ◌==◌}
use circleftp_jellyfin.Base.Text.{codes}
use circleftp_jellyfin.Downloads.Fetcher.Transfer.{Report}
use circleftp_jellyfin.Downloads.Model.{DownloadStatus, FileStatus, DownloadFile, Download}
use circleftp_jellyfin.Downloads.Rows.{finish_job}
use circleftp_jellyfin.Downloads.Progress.{
  completes, apply, apply_all, set_progress, Writes, untouched, store_totals, reading, storing,
  idle, queue, write, read, store, Calls, here, silently, writing, IsSettled,
}
use circleftp_jellyfin.Downloads.Progress.Laws.{outline, Calls-finish_job, finish_job-stale}

abbrev file : DownloadFile
file = record {
  id = 7;
  url = codes "http://host/a.mkv";
  rel_path = codes "a.mkv";
  label = codes "a";
  season = none;
  episode = none;
  status = FileStatus.running;
  size_bytes = some 10;
  downloaded_bytes = 0;
  attempts = 1;
  error = none;
  finished_at = none;
}

abbrev row : Download
row = record {
  id = 1;
  post_id = 100;
  title = codes "Film";
  folder_name = codes "Film";
  status = DownloadStatus.running;
  total_bytes = some 10;
  downloaded_bytes = 0;
  error = none;
  seasons = [];
  cancel_requested = false;
  user_id = none;
  files = file ∷ [];
  created_at = 0;
  started_at = some 1;
  finished_at = none;
}

abbrev report : Report
report = record { at = 2000; bytes_on_disk = 4; total_bytes = some 10 }

finish_job-stale_example :
    (t : Writes) × Calls (untouched row) (completes 7 10 3000 ∷ []) t
    × IsSettled t
    × (g : DownloadFile) × (find (λ x. x.id == 7) (finish_job false 3000 t.row).files ≡ some g)
    × (g.status ≡ FileStatus.completed)
    × (g.downloaded_bytes ≡ 4)
finish_job-stale_example = finish_job-stale row file report 7 10 3000 refl

-- The report is written first, and its sums are read; the file is completed before they are stored.
abbrev reported : Writes
reported = record (untouched row) { row = set_progress 7 report row; chain = reading }

abbrev summed : Writes
summed = record reported { chain = storing (record { downloaded = 4; total = some 10 }) }

abbrev completed : Writes
completed = record summed { row = apply (completes 7 10 3000) summed.row; job = reading }

abbrev stored : Writes
stored = record completed {
  row = store_totals (record { downloaded = 4; total = some 10 }) completed.row;
  chain = idle;
}

run : Calls (untouched row) (completes 7 10 3000 ∷ []) stored
unfolding set_progress
run = silently (queue (untouched row) 7 report refl) (
    silently (write (record (untouched row) { pending = (7, report) ∷ [] }) 7 report [] refl refl) (
      silently (read reported refl) (
        writing (completes 7 10 3000) refl
          (silently (store completed (record { downloaded = 4; total = some 10 }) refl) (here _)))))

Calls-finish_job_example :
    outline (finish_job false 3000 stored.row)
    ≡ outline (finish_job false 3000 (apply_all (completes 7 10 3000 ∷ []) row))
Calls-finish_job_example = Calls-finish_job row false 3000 run
