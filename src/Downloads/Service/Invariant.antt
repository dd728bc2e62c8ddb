-- ===== src/Downloads/Service/Invariant.antt =====
-- What holds of every row between two requests: the operations of downloads/service.ts and the
-- steps of the worker in downloads/queue.ts keep it.
use circleftp_jellyfin.Base.{
  ℕ, ◌+◌, ◌≤◌, ◌≡◌, ◌≢◌, refl, List, [], ◌∷◌, none, Bool, false, arith, not, if◌then◌else◌, All,
  map, Bool-cases, inl, inr, is_none,
}
use circleftp_jellyfin.Base.Text.{Text}
use circleftp_jellyfin.Circleftp.Plan.{PlannedFile, DownloadPlan}
use circleftp_jellyfin.Downloads.Model.{
  FileStatus, DownloadStatus, DownloadFile, Download, is_completed_file, is_pending_file,
  is_running_file, is_active_status,
}
use circleftp_jellyfin.Downloads.Job.Settled.{has_key, KeysDiffer}
use circleftp_jellyfin.Downloads.Job.Finish.{is_open}
use circleftp_jellyfin.Downloads.Service.{
  new_files, new_download, cancel_queued, flag_cancel, requeue, CreateOptions, Keys,
}

-- A job that is neither queued nor running has no file to be done and carries its end; one that is
-- queued has no file in transfer; and the keys of its files differ.
pub record IsConsistent (d : Download) : Type 0 where
  pub closed : is_active_status d.status ≡ false → All (λ f. is_open f.status ≡ false) d.files
  pub idle : d.status ≡ DownloadStatus.queued → All (λ f. is_running_file f.status ≡ false) d.files
  pub stamped : is_active_status d.status ≡ is_none d.finished_at
  pub keys : KeysDiffer d.files

module _ (p : DownloadFile → Bool) (f : DownloadFile → DownloadFile)
    (keeps : (x : DownloadFile) → (f x).id ≡ x.id) where
  abbrev changed : List DownloadFile → List DownloadFile
  changed = map (λ x. if p x then f x else x)

  has_key-changed : (xs : List DownloadFile) (k : ℕ) → has_key (changed xs) k ≡ has_key xs k
  has_key-changed [] k = refl
  has_key-changed (x ∷ xs) k = ground (arith, has_key-changed xs k, keeps x)

  pub KeysDiffer-changed : (xs : List DownloadFile) → KeysDiffer xs → KeysDiffer (changed xs)
  KeysDiffer-changed [] u = tt
  KeysDiffer-changed (x ∷ xs) (out, u) =
      (ground (arith, has_key-changed xs x.id, keeps x), KeysDiffer-changed xs u)

new_files-has_key :
    (key : ℕ → ℕ) (i : ℕ) (fs : List PlannedFile) (k : ℕ)
    → ((j : ℕ) → i ≤ j → key j ≢ k)
    → has_key (new_files key i fs) k ≡ false
unfolding new_files
new_files-has_key key i [] k h = refl
new_files-has_key key i (f ∷ fs) k h =
    ground
      (arith, h i (omega arith), new_files-has_key key (i + 1) fs k (λ j le. h j (omega arith)))

-- A key for each position, and no key twice.
abbrev pub IsInjective : (ℕ → ℕ) → Type 0
IsInjective key = (i j : ℕ) → key i ≡ key j → i ≡ j

new_files-KeysDiffer :
    (key : ℕ → ℕ) (i : ℕ) (fs : List PlannedFile)
    → IsInjective key
    → KeysDiffer (new_files key i fs)
unfolding new_files
new_files-KeysDiffer key i [] h = tt
new_files-KeysDiffer key i (f ∷ fs) h = (
  new_files-has_key key (i + 1) fs (key i) (λ j le e. absurd (omega (arith, h j i e))),
  new_files-KeysDiffer key (i + 1) fs h,
)

new_files-idle :
    (key : ℕ → ℕ) (i : ℕ) (fs : List PlannedFile)
    → All (λ f. is_running_file f.status ≡ false) (new_files key i fs)
unfolding new_files
new_files-idle key i [] = tt
new_files-idle key i (f ∷ fs) = (refl, new_files-idle key (i + 1) fs)

pub new_download-IsConsistent :
    (o : CreateOptions) (title : Text) (plan : DownloadPlan) (keys : Keys) (now : ℕ)
    → IsInjective keys.file
    → IsConsistent (new_download o title plan keys now)
new_download-IsConsistent o title plan keys now h = record {
  closed = λ e. cc;
  idle = λ _. new_files-idle keys.file 0 plan.files;
  stamped = refl;
  keys = new_files-KeysDiffer keys.file 0 plan.files h;
}

cancel-closed :
    (fs : List DownloadFile)
    → All (λ f. is_running_file f.status ≡ false) fs
    → All
        (λ f. is_open f.status ≡ false)
        (map
          (λ f. if is_pending_file f.status then record f { status = FileStatus.cancelled } else f)
          fs)
cancel-closed [] h = tt
cancel-closed (f ∷ fs) (p, h) = elim (Bool-cases (is_pending_file f.status)) [
  | inl e ↦ rw e (refl, cancel-closed fs h)
  | inr e ↦ rw e (ground arith, cancel-closed fs h)
]

pub cancel_queued-IsConsistent :
    (now : ℕ) (d : Download)
    → d.status ≡ DownloadStatus.queued
    → IsConsistent d
    → IsConsistent (cancel_queued now d)
unfolding cancel_queued
cancel_queued-IsConsistent now d q h = record {
  closed = λ _. cancel-closed d.files (h.idle q);
  idle = λ e. cc;
  stamped = refl;
  keys = KeysDiffer-changed _ _ (λ x. refl) d.files h.keys;
}

pub flag_cancel-IsConsistent : (d : Download) → IsConsistent d → IsConsistent (flag_cancel d)
unfolding flag_cancel
flag_cancel-IsConsistent d h = record {
  closed = h.closed;
  idle = h.idle;
  stamped = h.stamped;
  keys = h.keys;
}

requeue-idle :
    (fs : List DownloadFile)
    → All
        (λ f. is_running_file f.status ≡ false)
        (map
          (λ f.
            if not (is_completed_file f.status)
            then record f { status = FileStatus.pending; error = none; attempts = 0 }
            else f)
          fs)
requeue-idle [] = tt
requeue-idle (f ∷ fs) = elim (Bool-cases (is_completed_file f.status)) [
  | inl e ↦ rw e (ground arith, requeue-idle fs)
  | inr e ↦ rw e (refl, requeue-idle fs)
]

pub requeue-IsConsistent : (d : Download) → IsConsistent d → IsConsistent (requeue d)
unfolding requeue
requeue-IsConsistent d h = record {
  closed = λ e. cc;
  idle = λ _. requeue-idle d.files;
  stamped = refl;
  keys = KeysDiffer-changed _ _ (λ x. refl) d.files h.keys;
}
