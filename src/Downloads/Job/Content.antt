-- ===== src/Downloads/Job/Content.antt =====
-- From downloads/queue.ts down to the disk: a file that is marked done holds its content.
use circleftp_jellyfin.Base.{
  ℕ, zero, suc, ◌+◌, ◌≡◌, refl, sym, ap, subst, ◌∙◌, Option, none, some, true, false, arith,
  if◌then◌else◌, ltb, Bool-cases, Option-cases, inl, inr,
}
use circleftp_jellyfin.Base.Text.{Text}
use circleftp_jellyfin.Base.Result.{ok}
use circleftp_jellyfin.Downloads.Disk.{Bytes}
use circleftp_jellyfin.Downloads.Paths.{resolve_destination, check_space}
use circleftp_jellyfin.Downloads.Model.{DownloadFile}
use circleftp_jellyfin.Downloads.Rows.{
  persist_reports, complete_file, cancel_file, start_file, retry_file,
}
use circleftp_jellyfin.Downloads.Fetcher.{Outcome, Fetch, is_expected}
use circleftp_jellyfin.Downloads.Fetcher.Kept.{IsSafe, IsSound}
use circleftp_jellyfin.Downloads.Fetcher.Laws.{IsHonest, fetch_file-IsSound}
use circleftp_jellyfin.Downloads.Job.{
  Config, Attempt, FileOutcome, done, failed, cancelled, Job, update_row, AttemptEnd, ends, throws,
  after_fetch, probe_file, transfer_file, attempt_file, give_up, process_file,
}
use circleftp_jellyfin.Downloads.Job.Effect.{EndsWell, attempt_file-EndsWell, retry_file-Effect}

-- The size that an attempt at a file expects: that of its row, or the one that it has probed.
abbrev pub expected_size : Option ℕ → Attempt → Option ℕ
expected_size (some n) a = some n
expected_size none a = a.probed

pub probe_file-disk :
    (file : DownloadFile) (a : Attempt) (j : Job) → (probe_file file a j).1.disk ≡ j.disk
unfolding probe_file
probe_file-disk file a j = ground arith

pub probe_file-size :
    (file : DownloadFile) (a : Attempt) (j : Job)
    → (probe_file file a j).0 ≡ expected_size file.size_bytes a
unfolding probe_file
probe_file-size file a j = elim (Option-cases file.size_bytes) [
  | inl e ↦ rw (probe_file, e) refl
  | inr (n, e) ↦ rw (probe_file, e) refl
]

module _ (content : Bytes) (destination : Text) (Trusted : ℕ → Type 0) where
  -- The disk stays safe, and done means that the content is there.
  abbrev pub Holds : Job × FileOutcome → Type 0
  Holds (j, outcome) =
      IsSafe content destination Trusted j.disk
      × (outcome ≡ done → j.disk destination ≡ some content)

  abbrev EndHolds : AttemptEnd → Type 0
  EndHolds (ends outcome j) = Holds (j, outcome)
  EndHolds (throws j) = IsSafe content destination Trusted j.disk

  after_fetch-EndHolds :
      (id : ℕ) (a : Attempt) (j : Job) (f : Fetch)
      → IsSound content destination Trusted j.disk f
      → EndHolds (after_fetch id a j f)
  unfolding after_fetch
  after_fetch-EndHolds id a j f s = by_outcome f.outcome refl
    where
      j' : Job
      j' = record { row = persist_reports id 0 f.reports j.row; disk = f.disk }

      unless_aborted :
          EndHolds
            (if a.is_aborted then ends cancelled (update_row (cancel_file id) j') else throws j')
      unless_aborted = elim (Bool-cases a.is_aborted) [
        | inl e ↦ rw e (s.safe, λ k. cc)
        | inr e ↦ rw e s.safe
      ]

      by_outcome :
          (o : Outcome)
          → f.outcome ≡ o
          → EndHolds (elim o [
            | Outcome.fetched bytes _ ↦ ends done (update_row (complete_file id bytes a.now) j')
            | Outcome.cancelled ↦ ends cancelled (update_row (cancel_file id) j')
            | _ ↦
                if a.is_aborted then ends cancelled (update_row (cancel_file id) j') else throws j'
          ])
      by_outcome (Outcome.fetched bytes skipped) e = (s.safe, λ k. (s.done bytes skipped e).0)
      by_outcome Outcome.cancelled e = (s.safe, λ k. cc)
      by_outcome Outcome.stalled e = unless_aborted
      by_outcome Outcome.failed e = unless_aborted
      by_outcome Outcome.aborted_request e = unless_aborted

  module _ (c : Config) (file : DownloadFile) where
    transfer_file-EndHolds :
        (a : Attempt) (probed : Option ℕ) (j : Job)
        → ((n : ℕ) → is_expected probed n ≡ true → Trusted n)
        → IsSafe content destination Trusted j.disk
        → ((range : Option ℕ) → IsHonest content range (a.host range))
        → EndHolds (transfer_file c destination file a probed j)
    unfolding transfer_file
    transfer_file-EndHolds a probed j expects s honest =
        elim (Bool-cases (check_space c.min_free_gib a.free probed).is_ok) [
          | inl e ↦ rw e (
              after_fetch-EndHolds file.id a (update_row (start_file file.id) j) _
                (fetch_file-IsSound content _ Trusted j.disk a.host expects s honest))
          | inr e ↦ rw e (s, λ k. cc)
        ]

    attempt_file-EndHolds :
        (a : Attempt) (j : Job)
        → ((n : ℕ) → is_expected (expected_size file.size_bytes a) n ≡ true → Trusted n)
        → resolve_destination c.media_root j.row.folder_name file.rel_path ≡ ok destination
        → IsSafe content destination Trusted j.disk
        → ((range : Option ℕ) → IsHonest content range (a.host range))
        → EndHolds (attempt_file c file a j)
    unfolding attempt_file
    attempt_file-EndHolds a j expects path s honest =
        rw (path, attempt_file)
          (transfer_file-EndHolds a _ _
            (λ n e. expects n (subst (λ o. is_expected o n ≡ true) (probe_file-size file a j) e))
            (subst (IsSafe content destination Trusted) (sym (probe_file-disk file a j)) s) honest)

  give_up-Holds :
      (id : ℕ) (a : Attempt) (j : Job)
      → IsSafe content destination Trusted j.disk
      → Holds (give_up id a j, failed)
  unfolding give_up
  give_up-Holds id a j s = (s, λ k. cc)

  process_file-trusted :
      (fuel : ℕ) (c : Config) (file : DownloadFile) (world : ℕ → Attempt) (j : Job)
      → ((k n : ℕ) → is_expected (expected_size file.size_bytes (world k)) n ≡ true → Trusted n)
      → resolve_destination c.media_root j.row.folder_name file.rel_path ≡ ok destination
      → IsSafe content destination Trusted j.disk
      → ((k : ℕ) (range : Option ℕ) → IsHonest content range ((world k).host range))
      → Holds (process_file fuel c file world j)
  unfolding process_file
  process_file-trusted zero c file world j expects path s honest =
      by_end (attempt_file c file (world file.attempts) j) (
        attempt_file-EndHolds c file (world file.attempts) j (expects file.attempts) path s
          (honest file.attempts))
    where
      by_end :
          (e : AttemptEnd)
          → EndHolds e
          → Holds (elim e [
            | ends outcome j' ↦ (j', outcome)
            | throws j' ↦ (give_up file.id (world file.attempts) j', failed)
          ])
      by_end (ends outcome j') h = h
      by_end (throws j') h = give_up-Holds file.id (world file.attempts) j' h
  process_file-trusted (suc fuel) c file world j expects path s honest =
      by_end (attempt_file c file (world file.attempts) j)
        (attempt_file-EndHolds c file (world file.attempts) j (expects file.attempts) path s
          (honest file.attempts))
        (attempt_file-EndsWell c file (world file.attempts) j)
        (λ j' p t.
          process_file-trusted fuel c (record file { attempts = file.attempts + 1 }) world j'
            expects p t honest)
    where
      next : Job → Job × FileOutcome
      next j' = process_file fuel c (record file { attempts = file.attempts + 1 }) world j'

      by_end :
          (e : AttemptEnd)
          → EndHolds e
          → EndsWell file.id j.row e
          → ((j' : Job)
              → resolve_destination c.media_root j'.row.folder_name file.rel_path ≡ ok destination
              → IsSafe content destination Trusted j'.disk
              → Holds (next j'))
          → Holds (elim e [
            | ends outcome j' ↦ (j', outcome)
            | throws j' ↦ elim (ltb (file.attempts + 1) c.max_attempts) [
              | true ↦ next (update_row (retry_file file.id (world file.attempts).message) j')
              | false ↦ (give_up file.id (world file.attempts) j', failed)
            ]
          ])
      by_end (ends outcome j') h k later = h
      by_end (throws j') h k later = elim (Bool-cases (ltb (file.attempts + 1) c.max_attempts)) [
        | inl e ↦
            let message = (world file.attempts).message in
            let folder = (retry_file-Effect file.id message j'.row).same_folder ∙ k.same_folder in
            rw e (
              later (update_row (retry_file file.id message) j')
                (ap (λ f. resolve_destination c.media_root f file.rel_path) folder ∙ path) h)
        | inr e ↦ rw e (give_up-Holds file.id (world file.attempts) j' h)
      ]

-- A size that some attempt at the file would take for that of the finished file.
abbrev pub IsExpected : DownloadFile → (ℕ → Attempt) → ℕ → Type 0
IsExpected file world n = (k : ℕ) × (is_expected (expected_size file.size_bytes (world k)) n ≡ true)

-- `processFile` with hosts that serve one content honestly at each attempt, as for one fetch, onto a
-- disk whose partial file is a prefix of the content and whose final file, if it has a size that one of
-- the attempts expects or any size where one knows none, is the content: whatever happens at each
-- attempt, the partial file stays a prefix of the content, and where the outcome is done the
-- destination holds the content.
pub process_file-Holds :
    (content : Bytes) (destination : Text) (fuel : ℕ) (c : Config) (file : DownloadFile)
    (world : ℕ → Attempt) (j : Job)
    → resolve_destination c.media_root j.row.folder_name file.rel_path ≡ ok destination
    → IsSafe content destination (IsExpected file world) j.disk
    → ((k : ℕ) (range : Option ℕ) → IsHonest content range ((world k).host range))
    → Holds content destination (IsExpected file world) (process_file fuel c file world j)
process_file-Holds content destination fuel c file world j path s honest =
    process_file-trusted content destination (IsExpected file world) fuel c file world j
      (λ k n e. (k, e)) path s honest
