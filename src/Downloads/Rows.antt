-- ===== src/Downloads/Rows.antt =====
-- The writes to the rows of one job in packages/server/src/downloads/queue.ts: progress, the
-- states of a file, the totals, and the verdict of `finishJob`.
use circleftp_jellyfin.Base.{
  ℕ, ◌+◌, ◌-◌, List, [], ◌∷◌, ◌++◌, Option, none, some, Bool, false, ◌||◌, if◌then◌else◌, ◌==◌, ltb,
  take, count, length, all, is_some, get_or_else,
}
use circleftp_jellyfin.Base.Text.{Text, codes}
use circleftp_jellyfin.Circleftp.Plan.{decimal}
use circleftp_jellyfin.Downloads.Fetcher.Transfer.{Report}
use circleftp_jellyfin.Downloads.Model.{
  DownloadStatus, FileStatus, is_pending_file, is_running_file, is_completed_file, is_failed_file,
  DownloadFile, Download, update_files, update_file,
}

-- `recomputeTotals`
abbrev pub sum_downloaded : List DownloadFile → ℕ
sum_downloaded [] = 0
sum_downloaded (f ∷ fs) = f.downloaded_bytes + sum_downloaded fs

abbrev pub sum_sizes : List DownloadFile → ℕ
sum_sizes [] = 0
sum_sizes (f ∷ fs) = get_or_else f.size_bytes 0 + sum_sizes fs

unfoldable pub recompute_totals : Download → Download
recompute_totals d = record d {
  downloaded_bytes = sum_downloaded d.files;
  total_bytes = if all (λ f. is_some f.size_bytes) d.files then some (sum_sizes d.files) else none;
}

-- `error.slice(0, 500)`
unfoldable pub mark_file_failed : ℕ → Text → ℕ → Download → Download
mark_file_failed id error now = update_file id (λ f. record f {
  status = FileStatus.failed;
  error = some (take 500 error);
  finished_at = some now;
})

-- `persistProgress`
unfoldable pub persist_progress : ℕ → Report → Download → Download
persist_progress id r d = recompute_totals (
    update_file id
      (λ f. record f {
        downloaded_bytes = r.bytes_on_disk;
        size_bytes = elim r.total_bytes [ none ↦ f.size_bytes | some t ↦ some t ];
      })
      d)

-- `onProgress` over the reports of a transfer: at most one write in 1500 ms.
unfoldable pub persist_reports : ℕ → ℕ → List Report → Download → Download
persist_reports id last_write [] d = d
persist_reports id last_write (r ∷ rs) d =
    let skipped = ltb (r.at - last_write) 1500 in
    persist_reports id (if skipped then last_write else r.at) rs
      (if skipped then d else persist_progress id r d)

unfoldable pub start_file : ℕ → Download → Download
start_file id =
    update_file id
      (λ f. record f { status = FileStatus.running; attempts = f.attempts + 1; error = none })

unfoldable pub complete_file : ℕ → ℕ → ℕ → Download → Download
complete_file id bytes now d = recompute_totals (
    update_file id
      (λ f. record f {
        status = FileStatus.completed;
        downloaded_bytes = bytes;
        size_bytes = some bytes;
        finished_at = some now;
        error = none;
      })
      d)

unfoldable pub cancel_file : ℕ → Download → Download
cancel_file id = update_file id (λ f. record f { status = FileStatus.cancelled })

unfoldable pub retry_file : ℕ → Text → Download → Download
retry_file id message =
    update_file id (λ f. record f { status = FileStatus.pending; error = some message })

unfoldable pub store_size : ℕ → Option ℕ → Download → Download
store_size id none d = d
store_size id (some n) d = update_file id (λ f. record f { size_bytes = some n }) d

abbrev pub completed_count : List DownloadFile → ℕ
completed_count = count (λ f. is_completed_file f.status)

abbrev pub failed_count : List DownloadFile → ℕ
failed_count = count (λ f. is_failed_file f.status)

-- The status and the error that `finishJob` writes, from the files as they are.
pub record Verdict : Type 0 where
  pub status : DownloadStatus
  pub error : Option Text

unfoldable pub verdict : Bool → ℕ → ℕ → ℕ → Verdict
verdict is_cancelled completed failed total =
    if is_cancelled
    then record { status = DownloadStatus.cancelled; error = none }
    else if completed == total
    then record { status = DownloadStatus.completed; error = none }
    else if ltb 0 completed
    then record {
      status = DownloadStatus.partial;
      error = some (
          decimal failed
          ++ (codes " of " ++ (decimal total ++ codes " files could not be downloaded")));
    }
    else record {
      status = DownloadStatus.failed;
      error = some (codes "No files could be downloaded");
    }

unfoldable pub cancel_files : Bool → Download → Download
cancel_files is_cancelled d =
    if is_cancelled
    then update_files (λ f. is_pending_file f.status || is_running_file f.status)
        (λ f. record f { status = FileStatus.cancelled }) d
    else d

unfoldable pub finish_job : Bool → ℕ → Download → Download
finish_job is_cancelled now d =
    let v =
      verdict is_cancelled (completed_count d.files) (failed_count d.files) (length d.files) in
    let d' = recompute_totals (cancel_files is_cancelled d) in
    record d' {
      status = v.status;
      error = v.error;
      finished_at = some now;
      cancel_requested = false;
    }
