-- ===== src/Downloads/Job/Settled.antt =====
-- The loop of `processJob` in downloads/queue.ts leaves no file unsettled, and `finishJob` writes
-- the status that the files call for.
use circleftp_jellyfin.Base.{
  ◌∙◌, ℕ, ◌≡◌, refl, sym, subst, List, [], ◌∷◌, Bool, true, false, arith, if◌then◌else◌, ◌==◌,
  ==_iff, ◌||◌, All, any, Bool-cases, inl, inr,
}
use circleftp_jellyfin.Downloads.Model.{
  FileStatus, DownloadFile, Download, is_completed_file, is_failed_file,
}
use circleftp_jellyfin.Downloads.Kept.{Kept, Kept-refl, Kept-trans, Kept-mono, Kept-All}
use circleftp_jellyfin.Downloads.Job.{
  Config, FileOutcome, done, failed, cancelled, Job, update_row, process_file, FileWorld,
  receive_cancel, after_file, process_files,
}
use circleftp_jellyfin.Downloads.Job.Effect.{Processed, process_file-Processed}

-- COMPLETED or FAILED.
abbrev pub is_settled : FileStatus → Bool
is_settled s = is_completed_file s || is_failed_file s

abbrev pub has_key : List DownloadFile → ℕ → Bool
has_key fs i = any (λ f. f.id == i) fs

-- No two files of a job have one key.
abbrev pub KeysDiffer : List DownloadFile → Type 0
KeysDiffer [] = Unit
KeysDiffer (f ∷ fs) = (has_key fs f.id ≡ false) × KeysDiffer fs

-- Every row with the key of one of the files is settled.
abbrev SettledAt : ℕ → List DownloadFile → Type 0
SettledAt k ys = All (λ y. (y.id == k) ≡ true → is_settled y.status ≡ true) ys

abbrev CompletedAt : DownloadFile → List DownloadFile → Type 0
CompletedAt f ys =
    is_completed_file f.status ≡ true
    → All (λ y. (y.id == f.id) ≡ true → is_settled y.status ≡ true) ys

StatusIs-SettledAt :
    (k : ℕ) (s : FileStatus) (ys : List DownloadFile)
    → is_settled s ≡ true
    → All (λ y. (y.id == k) ≡ true → y.status ≡ s) ys
    → SettledAt k ys
StatusIs-SettledAt k s [] h a = tt
StatusIs-SettledAt k s (y ∷ ys) h (p, a) =
    (λ hit. subst (λ t. is_settled t ≡ true) (sym (p hit)) h, StatusIs-SettledAt k s ys h a)

-- Another file's processing leaves the completed ones as they are.
CompletedAt-Kept :
    (k : ℕ) (fs ys zs : List DownloadFile)
    → has_key fs k ≡ false
    → Kept (λ i. i == k) ys zs
    → All (λ f. CompletedAt f ys) fs
    → All (λ f. CompletedAt f zs) fs
CompletedAt-Kept k [] ys zs out h a = tt
CompletedAt-Kept k (f ∷ fs) ys zs out h (p, a) = (
  λ c. Kept-All _ (λ i. i == k) f.id (ground arith) ys zs h (p c),
  CompletedAt-Kept k fs ys zs (ground arith) h a,
)

-- The three ways in which the loop treats a file: it skips it, it stops in front of it, or it
-- processes it and goes on by the outcome.
module _ (c : Config) (f : DownloadFile) (fs : List DownloadFile) (world : ℕ → FileWorld)
    (j : Job) where
  abbrev marked : Job
  marked = update_row (receive_cancel (world f.id).cancel_arrives) j

  visit_cases {ℓ} :
      (P : Job × Bool → Type ℓ)
      → (is_completed_file f.status ≡ true → P (process_files c fs world j))
      → P (marked, true)
      → ((r : Job × FileOutcome)
          → Processed f.id marked.row r
          → P (after_file (process_files c fs world) r))
      → P (process_files c (f ∷ fs) world j)
  unfolding process_files
  visit_cases P skip stop go = elim (Bool-cases (is_completed_file f.status)) [
    | inl e ↦ rw e (skip e)
    | inr e ↦
        rw e (elim marked.row.cancel_requested as (λ b. P (if b then (marked, true) else go_on)) [
          | true ↦ stop
          | false ↦ go r (process_file-Processed c.max_attempts c f (world f.id).attempts marked)
        ])
  ]
    where
      r : Job × FileOutcome
      r = process_file c.max_attempts c f (world f.id).attempts marked

      go_on : Job × Bool
      go_on = after_file (process_files c fs world) r

module _ (f : DownloadFile) (fs : List DownloadFile) (rest : Job → Job × Bool) where
  module _ (ih : (i : Job) → Kept (has_key fs) i.row.files (rest i).0.row.files) where
    widen : (i : Job) → Kept (has_key (f ∷ fs)) i.row.files (rest i).0.row.files
    widen i = Kept-mono _ _ (λ k out. ground arith) _ _ (ih i)

    after_file-Kept :
        (d : Download) (r : Job × FileOutcome)
        → Processed f.id d r
        → Kept (has_key (f ∷ fs)) d.files (after_file rest r).0.row.files
    after_file-Kept d (j, outcome) (e, s) = by_outcome outcome
      where
        one : Kept (has_key (f ∷ fs)) d.files j.row.files
        one = Kept-mono _ _ (λ k out. ground arith) _ _ e.files

        by_outcome :
            (o : FileOutcome) → Kept (has_key (f ∷ fs)) d.files (after_file rest (j, o)).0.row.files
        by_outcome done = Kept-trans _ d.files j.row.files _ one (widen j)
        by_outcome failed = Kept-trans _ d.files j.row.files _ one (widen j)
        by_outcome cancelled = one

    -- What one file's processing has settled stays so, and the later files find what they need.
    after_file-SettledAt :
        (settles : (i : Job)
          → All (λ g. CompletedAt g i.row.files) fs
          → (rest i).1 ≡ false
          → All (λ g. SettledAt g.id (rest i).0.row.files) fs)
        (d : Download) (r : Job × FileOutcome)
        → Processed f.id d r
        → has_key fs f.id ≡ false
        → All (λ g. CompletedAt g d.files) fs
        → (after_file rest r).1 ≡ false
        → All (λ g. SettledAt g.id (after_file rest r).0.row.files) (f ∷ fs)
    after_file-SettledAt settles d (j, cancelled) (e, s) out a h = cc
    after_file-SettledAt settles d (j, done) (e, s) out a h = (
      Kept-All _ (has_key fs) f.id out j.row.files _ (ih j)
          (StatusIs-SettledAt f.id FileStatus.completed j.row.files refl s),
      settles j (CompletedAt-Kept f.id fs d.files j.row.files out e.files a) h,
    )
    after_file-SettledAt settles d (j, failed) (e, s) out a h = (
      Kept-All _ (has_key fs) f.id out j.row.files _ (ih j)
          (StatusIs-SettledAt f.id FileStatus.failed j.row.files refl s),
      settles j (CompletedAt-Kept f.id fs d.files j.row.files out e.files a) h,
    )

-- The rows of files that the loop does not visit do not change.
pub process_files-Kept :
    (c : Config) (fs : List DownloadFile) (world : ℕ → FileWorld) (j : Job)
    → Kept (has_key fs) j.row.files (process_files c fs world j).0.row.files
unfolding process_files
process_files-Kept c [] world j = Kept-refl _ j.row.files
process_files-Kept c (f ∷ fs) world j =
    let ih = process_files-Kept c fs world in
    visit_cases c f fs world j (λ r. Kept (has_key (f ∷ fs)) j.row.files r.0.row.files)
      (λ _. widen f fs (process_files c fs world) ih j) (Kept-refl _ j.row.files)
      (after_file-Kept f fs (process_files c fs world) ih (marked c f fs world j).row)

after_file-id :
    (rest : Job → Job × Bool) (i : ℕ)
    → ((j : Job) → (rest j).0.row.id ≡ j.row.id)
    → (r : Job × FileOutcome) → r.0.row.id ≡ i
    → (after_file rest r).0.row.id ≡ i
after_file-id rest i h (j, done) e = h j ∙ e
after_file-id rest i h (j, failed) e = h j ∙ e
after_file-id rest i h (j, cancelled) e = e

pub process_files-id :
    (c : Config) (fs : List DownloadFile) (world : ℕ → FileWorld) (j : Job)
    → (process_files c fs world j).0.row.id ≡ j.row.id
unfolding process_files
process_files-id c [] world j = refl
process_files-id c (f ∷ fs) world j =
    visit_cases c f fs world j (λ r. r.0.row.id ≡ j.row.id) (λ _. process_files-id c fs world j)
      refl
      (λ r p.
        after_file-id (process_files c fs world) j.row.id (process_files-id c fs world) r
          p.0.same_id)

-- A loop that comes to its end has settled the row of every file that it was given.
pub process_files-SettledAt :
    (c : Config) (fs : List DownloadFile) (world : ℕ → FileWorld) (j : Job)
    → KeysDiffer fs
    → All (λ f. CompletedAt f j.row.files) fs
    → (process_files c fs world j).1 ≡ false
    → All (λ f. SettledAt f.id (process_files c fs world j).0.row.files) fs
unfolding process_files
process_files-SettledAt c [] world j u a h = tt
process_files-SettledAt c (f ∷ fs) world j (out, u) (p, a) h =
    let ih = process_files-Kept c fs world in
    let settles = λ (i : Job). process_files-SettledAt c fs world i u in
    visit_cases c f fs world j (λ r. r.1 ≡ false → All (λ g. SettledAt g.id r.0.row.files) (f ∷ fs))
      (λ e k. (Kept-All _ (has_key fs) f.id out j.row.files _ (ih j) (p e), settles j a k))
      (λ k. cc)
      (λ r k.
        after_file-SettledAt f fs (process_files c fs world) ih settles (marked c f fs world j).row
          r k out a)
      h

CompletedAt-others :
    (f : DownloadFile) (fs : List DownloadFile) → has_key fs f.id ≡ false → SettledAt f.id fs
CompletedAt-others f [] out = tt
CompletedAt-others f (g ∷ fs) out = (λ hit. ground arith, CompletedAt-others f fs (ground arith))

CompletedAt-cons :
    (f : DownloadFile) (fs gs : List DownloadFile)
    → has_key gs f.id ≡ false
    → All (λ g. CompletedAt g fs) gs
    → All (λ g. CompletedAt g (f ∷ fs)) gs
CompletedAt-cons f fs [] out a = tt
CompletedAt-cons f fs (g ∷ gs) out (p, a) =
    (λ c. (λ hit. ground arith, p c), CompletedAt-cons f fs gs (ground arith) a)

-- Where the keys differ, a completed file is found completed under its key.
CompletedAt-self : (fs : List DownloadFile) → KeysDiffer fs → All (λ f. CompletedAt f fs) fs
CompletedAt-self [] u = tt
CompletedAt-self (f ∷ fs) (out, u) = (
  λ c. (λ _. ground arith, CompletedAt-others f fs out),
  CompletedAt-cons f fs fs out (CompletedAt-self fs u),
)

SettledAt-tail :
    (y : DownloadFile) (ys xs : List DownloadFile)
    → All (λ f. SettledAt f.id (y ∷ ys)) xs
    → All (λ f. SettledAt f.id ys) xs
SettledAt-tail y ys [] a = tt
SettledAt-tail y ys (x ∷ xs) (p, a) = (p.1, SettledAt-tail y ys xs a)

abbrev pub AllSettled : List DownloadFile → Type 0
AllSettled = All (λ y. is_settled y.status ≡ true)

AllSettled-of_keys :
    (p : ℕ → Bool) (xs ys : List DownloadFile)
    → Kept p xs ys
    → All (λ f. SettledAt f.id ys) xs
    → AllSettled ys
AllSettled-of_keys p [] [] h a = tt
AllSettled-of_keys p [] (_ ∷ _) h a = absurd h
AllSettled-of_keys p (_ ∷ _) [] h a = tt
AllSettled-of_keys p (x ∷ xs) (y ∷ ys) ((i, _), h) (a, as') =
    (a.0 ((==_iff _ _).1 i), AllSettled-of_keys p xs ys h (SettledAt-tail y ys xs as'))

-- When the loop over the files of a job comes to its end without a cancellation, every file of
-- the job is COMPLETED or FAILED, if the files have different keys.
pub process_files-AllSettled :
    (c : Config) (world : ℕ → FileWorld) (j : Job)
    → KeysDiffer j.row.files
    → (process_files c j.row.files world j).1 ≡ false
    → AllSettled (process_files c j.row.files world j).0.row.files
process_files-AllSettled c world j u h =
    AllSettled-of_keys _ j.row.files _ (process_files-Kept c j.row.files world j)
      (process_files-SettledAt c j.row.files world j u (CompletedAt-self j.row.files u) h)
