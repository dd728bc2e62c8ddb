-- ===== src/Downloads/Queue/Recovery.antt =====
-- A restart: `recoverFromCrash` of downloads/queue.ts.
use circleftp_jellyfin.Base.{
  ◌≡◌, refl, List, [], ◌∷◌, true, false, arith, if◌then◌else◌, All, map, Bool-cases, inl, inr,
}
use circleftp_jellyfin.Downloads.Model.{
  FileStatus, DownloadStatus, DownloadFile, Download, Downloads, is_running_file, is_running,
  is_active_status,
}
use circleftp_jellyfin.Downloads.Job.Finish.{is_open}
use circleftp_jellyfin.Downloads.Service.Invariant.{IsConsistent, KeysDiffer-changed}
use circleftp_jellyfin.Downloads.Queue.{recover_row, recover_from_crash}

recovered-idle :
    (fs : List DownloadFile)
    → All
        (λ f. is_running_file f.status ≡ false)
        (map
          (λ f. if is_running_file f.status then record f { status = FileStatus.pending } else f)
          fs)
recovered-idle [] = tt
recovered-idle (f ∷ fs) = elim (Bool-cases (is_running_file f.status)) [
  | inl e ↦ rw e (refl, recovered-idle fs)
  | inr e ↦ rw e (e, recovered-idle fs)
]

-- What a restart makes of a row that a crash may have left in any state of its transfer.
pub record IsRecovered (d d' : Download) : Type 0 where
  pub not_running : is_running d'.status ≡ false
  pub requeued : is_running d.status ≡ true → d'.status ≡ DownloadStatus.queued
  pub left_alone : is_running d.status ≡ false → d'.status ≡ d.status
  pub idle : All (λ f. is_running_file f.status ≡ false) d'.files
  pub keeps_flag : d'.cancel_requested ≡ d.cancel_requested

recover_row-IsRecovered : (d : Download) → IsRecovered d (recover_row d)
unfolding recover_row
recover_row-IsRecovered d = record {
  not_running = ground arith;
  requeued = ground arith;
  left_alone = ground arith;
  idle = recovered-idle d.files;
  keeps_flag = refl;
}

pub recovered-closed :
    (fs : List DownloadFile)
    → All (λ f. is_open f.status ≡ false) fs
    → All
        (λ f. is_open f.status ≡ false)
        (map
          (λ f. if is_running_file f.status then record f { status = FileStatus.pending } else f)
          fs)
recovered-closed [] h = tt
recovered-closed (f ∷ fs) (p, h) = elim (Bool-cases (is_running_file f.status)) [
  | inl e ↦ ground arith
  | inr e ↦ rw e (p, recovered-closed fs h)
]

inactive_of_recovered :
    (s : DownloadStatus)
    → is_active_status (if is_running s then DownloadStatus.queued else s) ≡ false
    → is_active_status s ≡ false
inactive_of_recovered s h = ground arith

recover_row-IsConsistent : (d : Download) → IsConsistent d → IsConsistent (recover_row d)
unfolding recover_row
recover_row-IsConsistent d h = record {
  closed = λ e. recovered-closed d.files (h.closed (inactive_of_recovered d.status e));
  idle = λ _. recovered-idle d.files;
  stamped = ground (arith, h.stamped);
  keys = KeysDiffer-changed _ _ (λ x. refl) d.files h.keys;
}

-- A restart leaves no job and no file RUNNING: a job that was RUNNING is QUEUED again with its
-- cancellation flag kept, every other job keeps its status, and each row stays consistent.
pub recover_from_crash-IsConsistent :
    (ds : Downloads)
    → All IsConsistent ds
    → All (λ d. IsConsistent (recover_row d) × IsRecovered d (recover_row d)) ds
      × All IsConsistent (recover_from_crash ds)
      × All (λ d. is_running d.status ≡ false) (recover_from_crash ds)
unfolding recover_from_crash
recover_from_crash-IsConsistent [] h = (tt, tt, tt)
recover_from_crash-IsConsistent (d ∷ ds) (p, h) =
    let (rows, consistent, stopped) = recover_from_crash-IsConsistent ds h in
    let c = recover_row-IsConsistent d p in
    let r = recover_row-IsRecovered d in (((c, r), rows), (c, consistent), (r.not_running, stopped))
