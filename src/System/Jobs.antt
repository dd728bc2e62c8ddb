-- ===== src/System/Jobs.antt =====
-- What the end of a job leaves of its row and of the queue.
use circleftp_jellyfin.Base.{
  ℕ, suc, ◌≡◌, refl, sym, ap, subst, ◌∙◌, List, [], ◌∷◌, Option, none, some, Bool, true, false, not,
  if◌then◌else◌, ◌==◌, ==_iff, filter, any, length, arith, All, Bool-cases, Option-cases, inl, inr,
  is_none,
}
use circleftp_jellyfin.Downloads.Disk.{Disk}
use circleftp_jellyfin.Downloads.Model.{
  Download, DownloadFile, Downloads, DownloadStatus, find_download, update_download, is_running,
  is_active_status,
}
use circleftp_jellyfin.Downloads.Rows.{finish_job, cancel_files, recompute_totals}
use circleftp_jellyfin.Downloads.Kept.{Kept}
use circleftp_jellyfin.Downloads.Job.{Config, Job, FileWorld, process_files, process_job}
use circleftp_jellyfin.Downloads.Job.Settled.{
  has_key, KeysDiffer, process_files-Kept, process_files-id,
}
use circleftp_jellyfin.Downloads.Job.Finish.{process_job-IsFinished}
use circleftp_jellyfin.Downloads.Queue.{QueueState, finish_run, abort}
use circleftp_jellyfin.Downloads.Service.Invariant.{IsConsistent, KeysDiffer-changed}
use circleftp_jellyfin.Downloads.Service.Requests.{find-id, find-All}
use circleftp_jellyfin.Downloads.Service.Table.{IsTable, update-IsTable}
use circleftp_jellyfin.System.Rows.{runs, runs_at, changed, find-map}
use circleftp_jellyfin.System.Claims.{AllDiffer, IsSound}

Kept-has_key :
    (p : ℕ → Bool) (xs ys : List DownloadFile) (k : ℕ) → Kept p xs ys → has_key ys k ≡ has_key xs k
Kept-has_key p [] [] k h = refl
Kept-has_key p [] (_ ∷ _) k h = absurd h
Kept-has_key p (_ ∷ _) [] k h = absurd h
Kept-has_key p (x ∷ xs) (y ∷ ys) k ((i, e), h) = ground (arith, Kept-has_key p xs ys k h)

Kept-KeysDiffer :
    (p : ℕ → Bool) (xs ys : List DownloadFile) → Kept p xs ys → KeysDiffer xs → KeysDiffer ys
Kept-KeysDiffer p [] [] h u = tt
Kept-KeysDiffer p [] (_ ∷ _) h u = absurd h
Kept-KeysDiffer p (_ ∷ _) [] h u = absurd h
Kept-KeysDiffer p (x ∷ xs) (y ∷ ys) ((i, e), h) (out, u) =
    (Kept-has_key p xs ys y.id h ∙ ap (has_key xs) i ∙ out, Kept-KeysDiffer p xs ys h u)

finish_job-keys :
    (is_cancelled : Bool) (now : ℕ) (d : Download)
    → KeysDiffer d.files
    → KeysDiffer (finish_job is_cancelled now d).files
unfolding finish_job cancel_files recompute_totals
finish_job-keys true now d u = KeysDiffer-changed _ _ (λ x. refl) d.files u
finish_job-keys false now d u = u

finish_job-id :
    (is_cancelled : Bool) (now : ℕ) (d : Download) → (finish_job is_cancelled now d).id ≡ d.id
unfolding finish_job cancel_files recompute_totals
finish_job-id true now d = refl
finish_job-id false now d = refl

stopped_of_inactive : (s : DownloadStatus) → is_active_status s ≡ false → is_running s ≡ false
stopped_of_inactive s h = ground arith

module _ (c : Config) (world : ℕ → FileWorld) (now : ℕ) where
  process_job-id : (j : Job) → (process_job c world now j).row.id ≡ j.row.id
  unfolding process_job
  process_job-id j =
      finish_job-id (process_files c j.row.files world j).1 now _
      ∙ process_files-id c j.row.files world j

  process_job-IsConsistent :
      (j : Job) → KeysDiffer j.row.files → IsConsistent (process_job c world now j).row
  unfolding process_job
  process_job-IsConsistent j u =
      let over = process_job-IsFinished c world now j u in
      record {
        closed = λ e. over.closed;
        idle = λ e.
            (let bad : true ≡ false = subst (λ s. is_active_status s ≡ false) e over.inactive in
              absurd (cc));
        stamped = over.inactive ∙ sym (ap is_none over.stamped);
        keys =
            finish_job-keys (process_files c j.row.files world j).1 now _
              (Kept-KeysDiffer _ j.row.files _ (process_files-Kept c j.row.files world j) u);
      }

  -- The row that `runJob` leaves.
  abbrev finished_row : Disk → Download → Download
  finished_row disk d = (process_job c world now (record { row = d; disk = disk })).row

  finished_row-stopped :
      (disk : Disk) (d : Download)
      → KeysDiffer d.files
      → is_running (finished_row disk d).status ≡ false
  finished_row-stopped disk d u =
      let over = process_job-IsFinished c world now (record { row = d; disk = disk }) u in
      stopped_of_inactive _ over.inactive

  run-runs_at :
      (disk : Disk) (id : ℕ) (ds : Downloads)
      → All IsConsistent ds
      → (k : ℕ)
      → runs_at k (update_download id (finished_row disk) ds)
        ≡ (if id == k then false else runs_at k ds)
  run-runs_at disk id ds rows k =
      ap runs (find-map change keeps k ds) ∙ by_row (find_download k ds) refl
    where
      change : Download → Download
      change x = if x.id == id then finished_row disk x else x

      keeps : (x : Download) → (change x).id ≡ x.id
      keeps x = elim (Bool-cases (x.id == id)) [
        | inl e ↦ rw e (process_job-id (record { row = x; disk = disk }))
        | inr e ↦ rw e refl
      ]

      by_row :
          (o : Option Download)
          → find_download k ds ≡ o
          → runs (changed change o) ≡ (if id == k then false else runs o)
      by_row none found = ground arith
      by_row (some x) found = elim (Bool-cases (id == k)) [
        | inl hit ↦
            let same : (x.id == id) ≡ true = ground (arith, find-id k ds x found) in
            rw (hit, same)
              (finished_row-stopped disk x (find-All IsConsistent k ds x found rows).keys)
        | inr miss ↦
            let other : (x.id == id) ≡ false = ground (arith, find-id k ds x found) in
            rw (miss, other) refl
      ]

-- The jobs in flight but one.
abbrev dropped : ℕ → List ℕ → List ℕ
dropped i is = filter (λ k. not (k == i)) is

has-dropped :
    (i k : ℕ) (is : List ℕ)
    → any (λ x. x == k) (dropped i is) ≡ (if i == k then false else any (λ x. x == k) is)
has-dropped i k [] = ground arith
has-dropped i k (x ∷ xs) = ground (arith, has-dropped i k xs)

dropped-AllDiffer : (i : ℕ) (is : List ℕ) → AllDiffer is → AllDiffer (dropped i is)
dropped-AllDiffer i [] u = tt
dropped-AllDiffer i (x ∷ xs) (out, u) = elim (Bool-cases (x == i)) [
  | inl e ↦ rw e (dropped-AllDiffer i xs u)
  | inr e ↦ rw e (ground (arith, has-dropped i x xs), dropped-AllDiffer i xs u)
]

dropped_absent : (i : ℕ) (is : List ℕ) → any (λ k. k == i) is ≡ false → dropped i is ≡ is
dropped_absent i [] h = refl
dropped_absent i (x ∷ xs) h = ground (arith, dropped_absent i xs)

length-dropped :
    (i : ℕ) (is : List ℕ)
    → AllDiffer is
    → any (λ k. k == i) is ≡ true
    → suc (length (dropped i is)) ≡ length is
length-dropped i [] u h = absurd (cc)
length-dropped i (x ∷ xs) (out, u) h = elim (Bool-cases (x == i)) [
  | inl e ↦
      let same : any (λ k. k == i) xs ≡ false =
        subst (λ y. any (λ k. k == y) xs ≡ false) ((==_iff x i).0 e) out in
      rw (e, dropped_absent i xs same) refl
  | inr e ↦ rw e (ap suc (length-dropped i xs u (ground arith)))
]

run-IsTable :
    (c : Config) (world : ℕ → FileWorld) (now : ℕ) (disk : Disk) (id : ℕ) (ds : Downloads)
    → runs_at id ds ≡ true
    → IsTable ds
    → IsTable (update_download id (finished_row c world now disk) ds)
run-IsTable c world now disk id ds r t = elim (Option-cases (find_download id ds)) [
  | inl e ↦ absurd (ground (arith, ap runs e))
  | inr (d, e) ↦
      update-IsTable id (finished_row c world now disk)
        (λ x. process_job-id c world now (record { row = x; disk = disk })) ds d e
        (process_job-IsConsistent c world now (record { row = d; disk = disk })
          (find-All IsConsistent id ds d e t.rows).keys)
        t
]

-- A job that this process ran is over, and its slot is free again.
pub finish_run-IsSound :
    (c : Config) (world : ℕ → FileWorld) (now concurrency : ℕ) (disk : Disk) (id : ℕ)
    (q : QueueState)
    → abort id q ≡ true
    → IsSound concurrency q
    → IsSound concurrency (finish_run c world now disk id q)
unfolding finish_run abort
finish_run-IsSound c world now concurrency disk id q a s =
    let fewer = length-dropped id q.in_flight s.distinct a in
    record {
      table = run-IsTable c world now disk id q.downloads (s.matched id ∙ a) s.table;
      within = omega (arith, s.within);
      counted = omega (arith, fewer, s.counted);
      distinct = dropped-AllDiffer id q.in_flight s.distinct;
      matched = λ k.
          run-runs_at c world now disk id q.downloads s.table.rows k
          ∙ ap (λ b. if id == k then false else b) (s.matched k)
          ∙ sym (has-dropped id k q.in_flight);
    }
