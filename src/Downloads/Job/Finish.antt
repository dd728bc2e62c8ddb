-- ===== src/Downloads/Job/Finish.antt =====
-- `finishJob` of downloads/queue.ts: the status, the totals and the files of a job that is over.
use circleftp_jellyfin.Base.{
  ℕ, ◌+◌, ◌<◌, ◌≡◌, refl, List, [], ◌∷◌, none, some, Bool, true, false, arith, if◌then◌else◌, ◌||◌,
  All, all, length, map, Bool-cases, inl, inr, is_some,
}
use circleftp_jellyfin.Downloads.Model.{
  FileStatus, DownloadStatus, DownloadFile, Download, is_pending_file, is_running_file,
  is_active_status,
}
use circleftp_jellyfin.Downloads.Rows.{
  recompute_totals, completed_count, failed_count, verdict, cancel_files, finish_job,
  sum_downloaded, sum_sizes,
}
use circleftp_jellyfin.Downloads.Job.{Config, Job, FileWorld, process_files, process_job}
use circleftp_jellyfin.Downloads.Job.Settled.{AllSettled, KeysDiffer, process_files-AllSettled}

abbrev pub is_open : FileStatus → Bool
is_open s = is_pending_file s || is_running_file s

-- A job that is over: its status is final and tells how the files ended, nothing is left to do,
-- and the totals are those of the files.
pub record IsFinished (now : ℕ) (d : Download) : Type 0 where
  pub inactive : is_active_status d.status ≡ false
  pub closed : All (λ f. is_open f.status ≡ false) d.files
  pub when_completed :
      d.status ≡ DownloadStatus.completed → completed_count d.files ≡ length d.files
  pub when_partial :
      d.status ≡ DownloadStatus.partial
      → (0 < completed_count d.files)
        × (0 < failed_count d.files)
        × (completed_count d.files + failed_count d.files ≡ length d.files)
  pub when_failed :
      d.status ≡ DownloadStatus.failed
      → (completed_count d.files ≡ 0) × (failed_count d.files ≡ length d.files)
  pub downloaded : d.downloaded_bytes ≡ sum_downloaded d.files
  pub total :
      d.total_bytes
      ≡ (if all (λ f. is_some f.size_bytes) d.files then some (sum_sizes d.files) else none)
  pub unflagged : d.cancel_requested ≡ false
  pub stamped : d.finished_at ≡ some now

AllSettled-count :
    (fs : List DownloadFile) → AllSettled fs → completed_count fs + failed_count fs ≡ length fs
AllSettled-count [] a = omega arith
AllSettled-count (f ∷ fs) (p, a) = ground (arith, AllSettled-count fs a)

AllSettled-closed :
    (fs : List DownloadFile) → AllSettled fs → All (λ f. is_open f.status ≡ false) fs
AllSettled-closed [] a = tt
AllSettled-closed (f ∷ fs) (p, a) = (ground arith, AllSettled-closed fs a)

-- A cancellation closes every open file.
cancelled-closed :
    (fs : List DownloadFile)
    → All
        (λ f. is_open f.status ≡ false)
        (map (λ x. if is_open x.status then record x { status = FileStatus.cancelled } else x) fs)
cancelled-closed [] = tt
cancelled-closed (f ∷ fs) = elim (Bool-cases (is_open f.status)) [
  | inl e ↦ rw e (refl, cancelled-closed fs)
  | inr e ↦ rw e (e, cancelled-closed fs)
]

finish_job-IsFinished :
    (is_cancelled : Bool) (now : ℕ) (d : Download)
    → (is_cancelled ≡ false → AllSettled d.files)
    → IsFinished now (finish_job is_cancelled now d)
unfolding finish_job cancel_files recompute_totals verdict
finish_job-IsFinished true now d h = record {
  inactive = refl;
  closed = cancelled-closed d.files;
  when_completed = λ e. cc;
  when_partial = λ e. cc;
  when_failed = λ e. cc;
  downloaded = refl;
  total = refl;
  unflagged = refl;
  stamped = refl;
}
finish_job-IsFinished false now d h = record {
  inactive = ground arith;
  closed = AllSettled-closed d.files (h refl);
  when_completed = ground arith;
  when_partial = ground (arith, AllSettled-count d.files (h refl));
  when_failed = ground (arith, AllSettled-count d.files (h refl));
  downloaded = refl;
  total = refl;
  unflagged = refl;
  stamped = refl;
}

-- A job that has been processed is over, whatever happens around it: its status is final and not
-- open to files, COMPLETED only if every file is, PARTIAL only if some files are and all others
-- have failed, FAILED only if all have failed, and the totals are those of its files. The files
-- have different keys.
pub process_job-IsFinished :
    (c : Config) (world : ℕ → FileWorld) (now : ℕ) (j : Job)
    → KeysDiffer j.row.files
    → IsFinished now (process_job c world now j).row
unfolding process_job
process_job-IsFinished c world now j u =
    finish_job-IsFinished (process_files c j.row.files world j).1 now _
      (process_files-AllSettled c world j u)
