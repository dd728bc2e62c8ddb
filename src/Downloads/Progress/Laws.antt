-- ===== src/Downloads/Progress/Laws.antt =====
-- What the chain of progress writes can do to the rows of a job, in whatever order the calls land.
use circleftp_jellyfin.Base.{
  ℕ, ◌≡◌, refl, sym, ap, ◌∙◌, List, [], ◌∷◌, none, some, Bool, true, false, arith, map, ◌||◌, find,
  if◌then◌else◌, ◌==◌, Bool-cases, inl, inr, length,
}
use circleftp_jellyfin.Downloads.Fetcher.Transfer.{Report}
use circleftp_jellyfin.Downloads.Model.{
  FileStatus, DownloadFile, Download, is_pending_file, is_running_file,
}
use circleftp_jellyfin.Downloads.Rows.{
  persist_progress, complete_file, recompute_totals, completed_count, failed_count, finish_job,
  cancel_files, start_file, cancel_file, retry_file, mark_file_failed, store_size,
}
use circleftp_jellyfin.Downloads.Progress.{
  totals, store_totals, idle, reading, storing, progress_file, set_progress, Write, starts, cancels,
  completes, retries, fails, sizes, completed_file, apply, apply_all, Writes, untouched, Call,
  queue, write, read, store, fail_write, fail_totals, read_job, store_job, Calls, here, silently,
  writing, IsSettled,
}

-- A row without its counters of bytes.
abbrev pub outline_file : DownloadFile → DownloadFile
outline_file f = record f { size_bytes = none; downloaded_bytes = 0 }

abbrev pub outline : Download → Download
outline d = record d { downloaded_bytes = 0; total_bytes = none; files = map outline_file d.files }

-- Undisturbed, a write of the chain is `persistProgress`, and the completion of a file is the one of
-- the job.
persist_progress-steps :
    (id : ℕ) (r : Report) (d : Download)
    → persist_progress id r d
      ≡ store_totals (totals (set_progress id r d).files) (set_progress id r d)
unfolding persist_progress recompute_totals set_progress
persist_progress-steps id r d = refl

complete_file-steps :
    (id bytes now : ℕ) (d : Download)
    → complete_file id bytes now d
      ≡ store_totals
          (totals (apply (completes id bytes now) d).files)
          (apply (completes id bytes now) d)
unfolding complete_file recompute_totals apply
complete_file-steps id bytes now d = refl

outline-idempotent :
    (fs : List DownloadFile) → map outline_file (map outline_file fs) ≡ map outline_file fs
outline-idempotent [] = refl
outline-idempotent (f ∷ fs) = ap (◌∷◌ (outline_file f)) (outline-idempotent fs)

module _ (p : DownloadFile → Bool) (u : DownloadFile → DownloadFile) where
  outlined :
      ((f : DownloadFile) → p (outline_file f) ≡ p f)
      → ((f : DownloadFile) → outline_file (u f) ≡ outline_file (u (outline_file f)))
      → (fs : List DownloadFile)
      → map outline_file (map (λ x. if p x then u x else x) fs)
        ≡ map outline_file (map (λ x. if p x then u x else x) (map outline_file fs))
  outlined h k [] = refl
  outlined h k (f ∷ fs) = elim (Bool-cases (p f)) [
    | inl e ↦ rw (h f, e, k f) (ap (◌∷◌ (outline_file (u (outline_file f)))) (outlined h k fs))
    | inr e ↦ rw (h f, e) (ap (◌∷◌ (outline_file f)) (outlined h k fs))
  ]

  kept :
      ((f : DownloadFile) → outline_file (u f) ≡ outline_file f)
      → (fs : List DownloadFile)
      → map outline_file (map (λ x. if p x then u x else x) fs) ≡ map outline_file fs
  kept k [] = refl
  kept k (f ∷ fs) = elim (Bool-cases (p f)) [
    | inl e ↦ rw (e, k f) (ap (◌∷◌ (outline_file f)) (kept k fs))
    | inr e ↦ rw e (ap (◌∷◌ (outline_file f)) (kept k fs))
  ]

with_files : Download → List DownloadFile → Download
with_files d fs = record d { downloaded_bytes = 0; total_bytes = none; files = fs }

apply-outline : (w : Write) (d : Download) → outline (apply w d) ≡ outline (apply w (outline d))
unfolding apply start_file cancel_file retry_file mark_file_failed store_size with_files
apply-outline (starts id) d =
    ap (with_files d) (outlined (λ x. x.id == id) _ (λ _. refl) (λ _. refl) d.files)
apply-outline (cancels id) d =
    ap (with_files d) (outlined (λ x. x.id == id) _ (λ _. refl) (λ _. refl) d.files)
apply-outline (completes id bytes now) d =
    ap (with_files d) (outlined (λ x. x.id == id) _ (λ _. refl) (λ _. refl) d.files)
apply-outline (retries id message) d =
    ap (with_files d) (outlined (λ x. x.id == id) _ (λ _. refl) (λ _. refl) d.files)
apply-outline (fails id message now) d =
    ap (with_files d) (outlined (λ x. x.id == id) _ (λ _. refl) (λ _. refl) d.files)
apply-outline (sizes id none) d = ap (with_files d) (sym (outline-idempotent d.files))
apply-outline (sizes id (some n)) d =
    ap (with_files d) (outlined (λ x. x.id == id) _ (λ _. refl) (λ _. refl) d.files)

apply_all-outline :
    (ws : List Write) (d e : Download)
    → outline d ≡ outline e
    → outline (apply_all ws d) ≡ outline (apply_all ws e)
unfolding apply_all
apply_all-outline [] d e h = h
apply_all-outline (w ∷ ws) d e h =
    apply_all-outline ws (apply w d) (apply w e)
      (apply-outline w d ∙ (ap (λ x. outline (apply w x)) h ∙ sym (apply-outline w e)))

set_progress-outline :
    (id : ℕ) (r : Report) (d : Download) → outline (set_progress id r d) ≡ outline d
unfolding set_progress with_files
set_progress-outline id r d =
    ap (with_files d) (kept (λ x. x.id == id) (progress_file r) (λ _. refl) d.files)

-- No step of the chain, and no sum, changes what the outline keeps.
Call-outline : {s t : Writes} → Call s t → outline t.row ≡ outline s.row
Call-outline (queue s id r h) = refl
Call-outline (write s id r rest h k) = set_progress-outline id r s.row
Call-outline (read s h) = refl
Call-outline (store s t h) = refl
Call-outline (fail_write s w rest h k) = refl
Call-outline (fail_totals s) = refl
Call-outline (read_job s h) = refl
Call-outline (store_job s t h) = refl

Calls-outline :
    {s t : Writes} {ws : List Write} → Calls s ws t → outline t.row ≡ outline (apply_all ws s.row)
unfolding apply_all
Calls-outline (here s) = refl
Calls-outline {ws} (silently {s} {t} step rest) =
    Calls-outline rest ∙ apply_all-outline ws t.row s.row (Call-outline step)
Calls-outline (writing w h rest) = Calls-outline rest

completed_count-outline :
    (fs : List DownloadFile) → completed_count (map outline_file fs) ≡ completed_count fs
completed_count-outline [] = refl
completed_count-outline (f ∷ fs) = ground (arith, completed_count-outline fs)

failed_count-outline :
    (fs : List DownloadFile) → failed_count (map outline_file fs) ≡ failed_count fs
failed_count-outline [] = refl
failed_count-outline (f ∷ fs) = ground (arith, failed_count-outline fs)

length-outline : (fs : List DownloadFile) → length (map outline_file fs) ≡ length fs
length-outline [] = refl
length-outline (f ∷ fs) = omega (arith, length-outline fs)

finish_job-outline :
    (is_cancelled : Bool) (now : ℕ) (d : Download)
    → outline (finish_job is_cancelled now d) ≡ outline (finish_job is_cancelled now (outline d))
unfolding finish_job recompute_totals cancel_files
finish_job-outline false now d =
    rw
      (
        completed_count-outline d.files,
        failed_count-outline d.files,
        length-outline d.files,
        outline-idempotent d.files,
      )
      refl
finish_job-outline true now d =
    let unended = λ (f : DownloadFile). is_pending_file f.status || is_running_file f.status in
    rw
      (
        completed_count-outline d.files,
        failed_count-outline d.files,
        length-outline d.files,
        outlined unended (λ f. record f { status = FileStatus.cancelled }) (λ _. refl) (λ _. refl)
            d.files,
      )
      refl

-- Whatever the order in which the writes of progress land or fail between the writes of a job,
-- `finishJob` then leaves the row, but for the counters of bytes, that it leaves after the job's own
-- writes alone: the same status and error of the job, and the same of each of its files.
pub Calls-finish_job :
    {t : Writes} {ws : List Write} (d : Download) (is_cancelled : Bool) (now : ℕ)
    → Calls (untouched d) ws t
    → outline (finish_job is_cancelled now t.row)
      ≡ outline (finish_job is_cancelled now (apply_all ws d))
Calls-finish_job {t} {ws} d is_cancelled now r =
    finish_job-outline is_cancelled now t.row
    ∙ (ap (λ x. outline (finish_job is_cancelled now x)) (Calls-outline r)
        ∙ sym (finish_job-outline is_cancelled now (apply_all ws d)))

find-update :
    (p : DownloadFile → Bool) (u : DownloadFile → DownloadFile) (f : DownloadFile)
    → ((x : DownloadFile) → p (u x) ≡ p x)
    → (fs : List DownloadFile) → find p fs ≡ some f
    → find p (map (λ x. if p x then u x else x) fs) ≡ some (u f)
find-update p u f h [] e = cc
find-update p u f h (x ∷ fs) e = elim (Bool-cases (p x)) [
  | inl k ↦ grind (arith, k, h x, e)
  | inr k ↦ grind (arith, k, find-update p u f h fs, e)
]

-- A report of a file that is queued before its completion, and whose write lands after it, is what the
-- database keeps: `finishJob`, which has waited for that write, leaves the file completed with the
-- bytes of the report, however many were fetched.
pub finish_job-stale :
    (d : Download) (f : DownloadFile) (r : Report) (id bytes now : ℕ)
    → find (λ x. x.id == id) d.files ≡ some f
    → (t : Writes) × Calls (untouched d) (completes id bytes now ∷ []) t
      × IsSettled t
      × (g : DownloadFile) × (find (λ x. x.id == id) (finish_job false now t.row).files ≡ some g)
      × (g.status ≡ FileStatus.completed)
      × (g.downloaded_bytes ≡ r.bytes_on_disk)
unfolding apply set_progress finish_job recompute_totals cancel_files
finish_job-stale d f r id bytes now h =
    let p = λ (x : DownloadFile). x.id == id in
    let done = apply (completes id bytes now) d in
    let over = set_progress id r done in
    let asked : Writes = record (untouched d) { pending = (id, r) ∷ [] } in
    let waiting : Writes = record asked { row = done; job = reading } in
    let summed : Writes = record waiting { job = storing (totals done.files) } in
    let stored : Writes = record asked { row = store_totals (totals done.files) done } in
    let begun : Writes = record stored {
      row = set_progress id r stored.row;
      pending = [];
      chain = reading;
    } in
    let added : Writes = record begun { chain = storing (totals begun.row.files) } in
    (
      record added { row = store_totals (totals begun.row.files) begun.row; chain = idle },
      silently (queue (untouched d) id r refl) (
          writing (completes id bytes now) refl (
            silently (read_job waiting refl) (
              silently (store_job summed (totals done.files) refl) (
                silently (write stored id r [] refl refl) (
                  silently (read begun refl)
                    (silently (store added (totals begun.row.files) refl) (here _))))))),
      record { none_pending = refl; chain_idle = refl; job_idle = refl },
      progress_file r (completed_file bytes now f),
      find-update p (progress_file r) (completed_file bytes now f) (λ _. refl) done.files
          (find-update p (completed_file bytes now) f (λ _. refl) d.files h),
      refl,
      refl,
    )
