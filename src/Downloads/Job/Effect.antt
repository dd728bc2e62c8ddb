-- ===== src/Downloads/Job/Effect.antt =====
-- The effect of `processFile` in downloads/queue.ts on the row of its job: one file changes.
use circleftp_jellyfin.Base.{
  ℕ, zero, suc, ◌+◌, ◌-◌, ◌≡◌, refl, ◌∙◌, List, [], ◌∷◌, Option, none, some, true, false,
  if◌then◌else◌, ◌==◌, ltb, All, Bool-cases, inl, inr,
}
use circleftp_jellyfin.Base.Text.{Text}
use circleftp_jellyfin.Base.Result.{Result, ok, err}
use circleftp_jellyfin.Downloads.Model.{FileStatus, DownloadFile, Download, update_file}
use circleftp_jellyfin.Downloads.Fetcher.{Outcome, Fetch}
use circleftp_jellyfin.Downloads.Fetcher.Transfer.{Report}
use circleftp_jellyfin.Downloads.Paths.{resolve_destination, check_space}
use circleftp_jellyfin.Downloads.Rows.{
  recompute_totals, mark_file_failed, persist_progress, persist_reports, start_file, complete_file,
  cancel_file, retry_file, store_size,
}
use circleftp_jellyfin.Downloads.Kept.{Kept, Kept-refl, Kept-trans, updated-Kept, updated-status}
use circleftp_jellyfin.Downloads.Job.{
  Config, Attempt, FileOutcome, done, failed, cancelled, Job, update_row, AttemptEnd, ends, throws,
  after_fetch, probe_file, transfer_file, attempt_file, give_up, process_file,
}

-- Only the files with the key change, and the columns that the worker reads again do not.
pub record Effect (id : ℕ) (d d' : Download) : Type 0 where
  pub files : Kept (λ i. i == id) d.files d'.files
  pub same_id : d'.id ≡ d.id
  pub same_status : d'.status ≡ d.status
  pub same_cancel : d'.cancel_requested ≡ d.cancel_requested
  pub same_folder : d'.folder_name ≡ d.folder_name

pub Effect-refl : (id : ℕ) (d : Download) → Effect id d d
Effect-refl id d = record {
  files = Kept-refl _ d.files;
  same_id = refl;
  same_status = refl;
  same_cancel = refl;
  same_folder = refl;
}

pub Effect-trans : (id : ℕ) {c d e : Download} → Effect id c d → Effect id d e → Effect id c e
Effect-trans id {c} {d} {e} h k = record {
  files = Kept-trans _ c.files d.files e.files h.files k.files;
  same_id = k.same_id ∙ h.same_id;
  same_status = k.same_status ∙ h.same_status;
  same_cancel = k.same_cancel ∙ h.same_cancel;
  same_folder = k.same_folder ∙ h.same_folder;
}

-- The state of every file with the key.
abbrev pub StatusIs : ℕ → FileStatus → Download → Type 0
StatusIs id s d = All (λ y. (y.id == id) ≡ true → y.status ≡ s) d.files

update_file-Effect :
    (id : ℕ) (f : DownloadFile → DownloadFile) (d : Download)
    → ((x : DownloadFile) → (f x).id ≡ x.id)
    → Effect id d (update_file id f d)
update_file-Effect id f d keeps = record {
  files = updated-Kept id f keeps d.files;
  same_id = refl;
  same_status = refl;
  same_cancel = refl;
  same_folder = refl;
}

recompute_totals-Effect : (id : ℕ) (d : Download) → Effect id d (recompute_totals d)
unfolding recompute_totals
recompute_totals-Effect id d = record {
  files = Kept-refl _ d.files;
  same_id = refl;
  same_status = refl;
  same_cancel = refl;
  same_folder = refl;
}

persist_progress-Effect :
    (id : ℕ) (r : Report) (d : Download) → Effect id d (persist_progress id r d)
unfolding persist_progress
persist_progress-Effect id r d =
    Effect-trans id (update_file-Effect id _ d (λ x. refl)) (recompute_totals-Effect id _)

persist_reports-Effect :
    (id last : ℕ) (rs : List Report) (d : Download) → Effect id d (persist_reports id last rs d)
unfolding persist_reports
persist_reports-Effect id last [] d = Effect-refl id d
persist_reports-Effect id last (r ∷ rs) d = elim (Bool-cases (ltb (r.at - last) 1500)) [
  | inl e ↦ rw e (persist_reports-Effect id last rs d)
  | inr e ↦ rw e (
      Effect-trans id (persist_progress-Effect id r d)
        (persist_reports-Effect id r.at rs (persist_progress id r d)))
]

store_size-Effect : (id : ℕ) (n : Option ℕ) (d : Download) → Effect id d (store_size id n d)
unfolding store_size
store_size-Effect id none d = Effect-refl id d
store_size-Effect id (some n) d = update_file-Effect id _ d (λ x. refl)

start_file-Effect : (id : ℕ) (d : Download) → Effect id d (start_file id d)
unfolding start_file
start_file-Effect id d = update_file-Effect id _ d (λ x. refl)

pub retry_file-Effect :
    (id : ℕ) (message : Text) (d : Download) → Effect id d (retry_file id message d)
unfolding retry_file
retry_file-Effect id message d = update_file-Effect id _ d (λ x. refl)

-- The state that each outcome of `processFile` stands for.
abbrev pub status_after : FileOutcome → FileStatus
status_after done = FileStatus.completed
status_after failed = FileStatus.failed
status_after cancelled = FileStatus.cancelled

complete_file-Effect :
    (id bytes now : ℕ) (d : Download) → Effect id d (complete_file id bytes now d)
unfolding complete_file
complete_file-Effect id bytes now d =
    Effect-trans id (update_file-Effect id _ d (λ x. refl)) (recompute_totals-Effect id _)

complete_file-StatusIs :
    (id bytes now : ℕ) (d : Download)
    → StatusIs id FileStatus.completed (complete_file id bytes now d)
unfolding complete_file recompute_totals
complete_file-StatusIs id bytes now d =
    updated-status id _ (λ x. refl) FileStatus.completed (λ x. refl) d.files

cancel_file-Effect :
    (id : ℕ) (d : Download)
    → Effect id d (cancel_file id d) × StatusIs id FileStatus.cancelled (cancel_file id d)
unfolding cancel_file
cancel_file-Effect id d = (
  update_file-Effect id _ d (λ x. refl),
  updated-status id _ (λ x. refl) FileStatus.cancelled (λ x. refl) d.files,
)

mark_file_failed-Effect :
    (id : ℕ) (error : Text) (now : ℕ) (d : Download)
    → Effect id d (mark_file_failed id error now d)
      × StatusIs id FileStatus.failed (mark_file_failed id error now d)
unfolding mark_file_failed
mark_file_failed-Effect id error now d = (
  update_file-Effect id _ d (λ x. refl),
  updated-status id _ (λ x. refl) FileStatus.failed (λ x. refl) d.files,
)

-- An attempt that ends for good leaves the file in the state of its outcome.
abbrev pub EndsWell : ℕ → Download → AttemptEnd → Type 0
EndsWell id d (ends outcome j) = Effect id d j.row × StatusIs id (status_after outcome) j.row
EndsWell id d (throws j) = Effect id d j.row

EndsWell-trans :
    (id : ℕ) (d d' : Download) (e : AttemptEnd)
    → Effect id d d'
    → EndsWell id d' e
    → EndsWell id d e
EndsWell-trans id d d' (ends outcome j) h (k, s) = (Effect-trans id h k, s)
EndsWell-trans id d d' (throws j) h k = Effect-trans id h k

after_fetch-EndsWell :
    (id : ℕ) (a : Attempt) (j : Job) (f : Fetch) → EndsWell id j.row (after_fetch id a j f)
unfolding after_fetch
after_fetch-EndsWell id a j f =
    EndsWell-trans id j.row d _ (persist_reports-Effect id 0 f.reports j.row) (by_outcome f.outcome)
  where
    d : Download
    d = persist_reports id 0 f.reports j.row

    j' : Job
    j' = record { row = d; disk = f.disk }

    unless_aborted :
        EndsWell id d
          (if a.is_aborted then ends cancelled (update_row (cancel_file id) j') else throws j')
    unless_aborted = elim (Bool-cases a.is_aborted) [
      | inl e ↦ rw e (cancel_file-Effect id d)
      | inr e ↦ rw e (Effect-refl id d)
    ]

    by_outcome :
        (o : Outcome)
        → EndsWell id d (elim o [
          | Outcome.fetched bytes _ ↦ ends done (update_row (complete_file id bytes a.now) j')
          | Outcome.cancelled ↦ ends cancelled (update_row (cancel_file id) j')
          | _ ↦ if a.is_aborted then ends cancelled (update_row (cancel_file id) j') else throws j'
        ])
    by_outcome (Outcome.fetched bytes skipped) =
        (complete_file-Effect id bytes a.now d, complete_file-StatusIs id bytes a.now d)
    by_outcome Outcome.cancelled = cancel_file-Effect id d
    by_outcome Outcome.stalled = unless_aborted
    by_outcome Outcome.failed = unless_aborted
    by_outcome Outcome.aborted_request = unless_aborted

probe_file-Effect :
    (file : DownloadFile) (a : Attempt) (j : Job) → Effect file.id j.row (probe_file file a j).1.row
unfolding probe_file
probe_file-Effect file a j = by_size file.size_bytes
  where
    by_size :
        (size : Option ℕ)
        → Effect file.id j.row (
            let r : Option ℕ × Job = elim size [
              | some n ↦ (some n, j)
              | none ↦ (a.probed, update_row (store_size file.id a.probed) j)
            ] in
            r.1.row)
    by_size (some n) = Effect-refl file.id j.row
    by_size none = store_size-Effect file.id a.probed j.row

transfer_file-EndsWell :
    (c : Config) (destination : Text) (file : DownloadFile) (a : Attempt) (probed : Option ℕ)
    (j : Job)
    → EndsWell file.id j.row (transfer_file c destination file a probed j)
unfolding transfer_file
transfer_file-EndsWell c destination file a probed j =
    elim (Bool-cases (check_space c.min_free_gib a.free probed).is_ok) [
      | inl e ↦ rw e (
          EndsWell-trans file.id j.row _ _ (start_file-Effect file.id j.row)
            (after_fetch-EndsWell file.id a _ _))
      | inr e ↦ rw e (mark_file_failed-Effect file.id a.message a.now j.row)
    ]

pub attempt_file-EndsWell :
    (c : Config) (file : DownloadFile) (a : Attempt) (j : Job)
    → EndsWell file.id j.row (attempt_file c file a j)
unfolding attempt_file
attempt_file-EndsWell c file a j =
    by_path (resolve_destination c.media_root j.row.folder_name file.rel_path)
  where
    by_path :
        (path : Result Text)
        → EndsWell file.id j.row (elim path [
          | err e ↦ ends failed (update_row (mark_file_failed file.id a.message a.now) j)
          | ok destination ↦
              transfer_file c destination file a (probe_file file a j).0 (probe_file file a j).1
        ])
    by_path (err e) = mark_file_failed-Effect file.id a.message a.now j.row
    by_path (ok destination) =
        EndsWell-trans file.id j.row _ _ (probe_file-Effect file a j)
          (transfer_file-EndsWell c destination file a _ _)

-- What `processFile` has done when it returns: only its own file has changed, and that file is in
-- the state of the outcome.
abbrev pub Processed : ℕ → Download → Job × FileOutcome → Type 0
Processed id d r = Effect id d r.0.row × StatusIs id (status_after r.1) r.0.row

give_up-Processed :
    (id : ℕ) (a : Attempt) (d : Download) (j : Job)
    → Effect id d j.row
    → Processed id d (give_up id a j, failed)
unfolding give_up
give_up-Processed id a d j h =
    let (e, s) = mark_file_failed-Effect id a.message a.now j.row in (Effect-trans id h e, s)

pub process_file-Processed :
    (fuel : ℕ) (c : Config) (file : DownloadFile) (world : ℕ → Attempt) (j : Job)
    → Processed file.id j.row (process_file fuel c file world j)
unfolding process_file
process_file-Processed zero c file world j =
    by_end (attempt_file c file (world file.attempts) j) (attempt_file-EndsWell c file _ j)
  where
    by_end :
        (e : AttemptEnd)
        → EndsWell file.id j.row e
        → Processed file.id j.row (elim e [
          | ends outcome j' ↦ (j', outcome)
          | throws j' ↦ (give_up file.id (world file.attempts) j', failed)
        ])
    by_end (ends outcome j') h = h
    by_end (throws j') h = give_up-Processed file.id _ j.row j' h
process_file-Processed (suc fuel) c file world j =
    by_end (attempt_file c file (world file.attempts) j) (attempt_file-EndsWell c file _ j)
      (λ j'. process_file-Processed fuel c (record file { attempts = file.attempts + 1 }) world j')
  where
    next : Job → Job × FileOutcome
    next j' = process_file fuel c (record file { attempts = file.attempts + 1 }) world j'

    by_end :
        (e : AttemptEnd)
        → EndsWell file.id j.row e
        → ((j' : Job) → Processed file.id j'.row (next j'))
        → Processed file.id j.row (elim e [
          | ends outcome j' ↦ (j', outcome)
          | throws j' ↦ elim (ltb (file.attempts + 1) c.max_attempts) [
            | true ↦ next (update_row (retry_file file.id (world file.attempts).message) j')
            | false ↦ (give_up file.id (world file.attempts) j', failed)
          ]
        ])
    by_end (ends outcome j') h later = h
    by_end (throws j') h later = elim (Bool-cases (ltb (file.attempts + 1) c.max_attempts)) [
      | inl e ↦
          let message = (world file.attempts).message in
          let (k, s) = later (update_row (retry_file file.id message) j') in
          rw e (
            Effect-trans file.id h
                (Effect-trans file.id (retry_file-Effect file.id message j'.row) k),
            s,
          )
      | inr e ↦ rw e (give_up-Processed file.id _ j.row j' h)
    ]
