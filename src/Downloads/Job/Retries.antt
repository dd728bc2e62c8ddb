-- ===== src/Downloads/Job/Retries.antt =====
-- How often `processFile` of downloads/queue.ts tries: its recursion ends by itself, and the fuel
-- `DOWNLOAD_MAX_ATTEMPTS` is enough.
use circleftp_jellyfin.Base.{
  ℕ, zero, suc, ◌+◌, ◌≤◌, ◌≡◌, refl, sym, ◌∙◌, true, arith, if◌then◌else◌, ltb, Bool-cases, inl,
  inr,
}
use circleftp_jellyfin.Downloads.Model.{DownloadFile}
use circleftp_jellyfin.Downloads.Rows.{retry_file}
use circleftp_jellyfin.Downloads.Job.{
  Config, Attempt, FileOutcome, failed, Job, update_row, AttemptEnd, ends, throws, attempt_file,
  give_up, process_file,
}

-- What follows an attempt, with the next call of `processFile` given.
abbrev pub decide :
    Config → DownloadFile → Attempt → (Job → Job × FileOutcome) → AttemptEnd → Job × FileOutcome
decide c file a next (ends outcome j) = (j, outcome)
decide c file a next (throws j) =
    if ltb (file.attempts + 1) c.max_attempts
    then next (update_row (retry_file file.id a.message) j)
    else (give_up file.id a j, failed)

abbrev pub another : DownloadFile → DownloadFile
another file = record file { attempts = file.attempts + 1 }

process_file-suc :
    (fuel : ℕ) (c : Config) (file : DownloadFile) (world : ℕ → Attempt) (j : Job)
    → process_file (suc fuel) c file world j
      ≡ decide c file
          (world file.attempts)
          (process_file fuel c (another file) world)
          (attempt_file c file (world file.attempts) j)
unfolding process_file
process_file-suc fuel c file world j = ground arith

process_file-zero :
    (c : Config) (file : DownloadFile) (world : ℕ → Attempt) (j : Job)
    (next : Job → Job × FileOutcome)
    → c.max_attempts ≤ file.attempts
    → process_file zero c file world j
      ≡ decide c file (world file.attempts) next (attempt_file c file (world file.attempts) j)
unfolding process_file
process_file-zero c file world j next h = ground arith

decide-congr :
    (c : Config) (file : DownloadFile) (a : Attempt) (f g : Job → Job × FileOutcome)
    (e : AttemptEnd)
    → (ltb (file.attempts + 1) c.max_attempts ≡ true → (j : Job) → f j ≡ g j)
    → decide c file a f e ≡ decide c file a g e
decide-congr c file a f g (ends outcome j) h = refl
decide-congr c file a f g (throws j) h =
    elim (Bool-cases (ltb (file.attempts + 1) c.max_attempts)) [
      | inl e ↦ rw e (h e _)
      | inr e ↦ rw e
    ]

-- One more round of fuel changes nothing.
process_file-fuel :
    (fuel : ℕ) (c : Config) (file : DownloadFile) (world : ℕ → Attempt) (j : Job)
    → c.max_attempts ≤ file.attempts + fuel
    → process_file fuel c file world j ≡ process_file (suc fuel) c file world j
process_file-fuel zero c file world j h =
    process_file-zero c file world j (process_file zero c (another file) world) (omega arith)
    ∙ sym (process_file-suc zero c file world j)
process_file-fuel (suc fuel) c file world j h =
    process_file-suc fuel c file world j
    ∙ decide-congr c file (world file.attempts) _ _ (attempt_file c file (world file.attempts) j)
        (λ e i. process_file-fuel fuel c (another file) world i (omega arith))
    ∙ sym (process_file-suc (suc fuel) c file world j)

-- With the fuel `max_attempts` the function is the recursion of the source: after an attempt that
-- throws it calls itself with one attempt more exactly when that number is below the limit.
pub process_file_lem :
    (c : Config) (file : DownloadFile) (world : ℕ → Attempt) (j : Job)
    → process_file c.max_attempts c file world j
      ≡ decide c file
          (world file.attempts)
          (process_file c.max_attempts c (another file) world)
          (attempt_file c file (world file.attempts) j)
process_file_lem c file world j =
    process_file-fuel c.max_attempts c file world j (omega arith)
    ∙ process_file-suc c.max_attempts c file world j

abbrev give_up_after : DownloadFile → Attempt → AttemptEnd → Job × FileOutcome
give_up_after file a (ends outcome j) = (j, outcome)
give_up_after file a (throws j) = (give_up file.id a j, failed)
