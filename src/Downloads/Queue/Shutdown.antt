-- ===== src/Downloads/Queue/Shutdown.antt =====
-- `shutdown` of downloads/queue.ts, which aborts the transfers, and the restart that follows it.
use circleftp_jellyfin.Base.{
  ℕ, zero, suc, ◌≡◌, refl, ap, sym, ◌∙◌, List, [], ◌∷◌, ◌++◌, Option, Bool, true, false, ◌||◌, All,
  if◌then◌else◌,
}
use circleftp_jellyfin.Base.Text.{Text}
use circleftp_jellyfin.Base.Result.{ok}
use circleftp_jellyfin.Downloads.Disk.{Disk}
use circleftp_jellyfin.Downloads.Paths.{resolve_destination, check_space}
use circleftp_jellyfin.Downloads.Fetcher.{Outcome, fetched, Fetch, fetch_file}
use circleftp_jellyfin.Downloads.Model.{DownloadStatus, DownloadFile, is_completed_file}
use circleftp_jellyfin.Downloads.Rows.{finish_job, verdict, start_file}
use circleftp_jellyfin.Downloads.Job.{
  Config, Attempt, FileOutcome, done, failed, cancelled, Job, update_row, AttemptEnd, ends, throws,
  FileWorld, after_fetch, probe_file, transfer_file, attempt_file, process_file, receive_cancel,
  after_file, process_files, process_job,
}
use circleftp_jellyfin.Downloads.Job.Content.{expected_size, probe_file-size, probe_file-disk}
use circleftp_jellyfin.Downloads.Job.Settled.{KeysDiffer}
use circleftp_jellyfin.Downloads.Job.Finish.{is_open, process_job-IsFinished}
use circleftp_jellyfin.Downloads.Queue.{recover_row}
use circleftp_jellyfin.Downloads.Queue.Recovery.{recovered-closed}

abbrev pub is_fetched : Outcome → Bool
is_fetched (fetched bytes skipped) = true
is_fetched _ = false

-- The fetch of an attempt at a file.
abbrev pub fetch_of : Config → Text → Attempt → Option ℕ → Disk → Fetch
fetch_of c destination a probed disk =
    fetch_file
      (record {
        destination = destination;
        expected_size = probed;
        stall_timeout = c.stall_timeout;
      })
      disk a.host

-- An attempt that gets as far as the transfer, which does not complete, and whose signal is aborted.
pub record IsCutOff (c : Config) (file : DownloadFile) (a : Attempt) (j : Job) : Type 0 where
  pub destination : Text
  pub resolved : resolve_destination c.media_root j.row.folder_name file.rel_path ≡ ok destination
  pub fits : (check_space c.min_free_gib a.free (expected_size file.size_bytes a)).is_ok ≡ true
  pub unfinished :
      is_fetched (fetch_of c destination a (expected_size file.size_bytes a) j.disk).outcome ≡ false
  pub aborted : a.is_aborted ≡ true

abbrev is_cut_off : AttemptEnd → Bool
is_cut_off (ends cancelled j) = true
is_cut_off _ = false

after_fetch-cancelled :
    (id : ℕ) (a : Attempt) (j : Job) (f : Fetch)
    → is_fetched f.outcome ≡ false
    → a.is_aborted ≡ true
    → is_cut_off (after_fetch id a j f) ≡ true
unfolding after_fetch
after_fetch-cancelled id a j f unfinished aborted = by_outcome f.outcome refl
  where
    by_outcome : (o : Outcome) → f.outcome ≡ o → is_cut_off (after_fetch id a j f) ≡ true
    by_outcome (fetched bytes skipped) e =
        absurd (let bad : true ≡ false = ap is_fetched (sym e) ∙ unfinished in cc)
    by_outcome Outcome.cancelled e = rw (after_fetch, e) refl
    by_outcome Outcome.stalled e = rw (after_fetch, e, aborted) refl
    by_outcome Outcome.failed e = rw (after_fetch, e, aborted) refl
    by_outcome Outcome.aborted_request e = rw (after_fetch, e, aborted) refl

outcome_of : (e : AttemptEnd) → is_cut_off e ≡ true → (j : Job) × (e ≡ ends cancelled j)
outcome_of (ends done j) h = cc
outcome_of (ends failed j) h = cc
outcome_of (ends cancelled j) h = (j, refl)
outcome_of (throws j) h = cc

module _ (c : Config) (file : DownloadFile) where
  transfer_file-cancelled :
      (destination : Text) (a : Attempt) (probed : Option ℕ) (j : Job)
      → (check_space c.min_free_gib a.free probed).is_ok ≡ true
      → is_fetched (fetch_of c destination a probed j.disk).outcome ≡ false
      → a.is_aborted ≡ true
      → is_cut_off (transfer_file c destination file a probed j) ≡ true
  unfolding transfer_file
  transfer_file-cancelled destination a probed j fits unfinished aborted =
      rw (transfer_file, fits)
        (after_fetch-cancelled file.id a (update_row (start_file file.id) j) _ unfinished aborted)

  attempt_file-cancelled :
      (a : Attempt) (j : Job) → IsCutOff c file a j → is_cut_off (attempt_file c file a j) ≡ true
  unfolding attempt_file
  attempt_file-cancelled a j k =
      let size = probe_file-size file a j in
      let fits = ap (λ o. (check_space c.min_free_gib a.free o).is_ok) size ∙ k.fits in
      let unfinished =
        ap (λ o. is_fetched (fetch_of c k.destination a o (probe_file file a j).1.disk).outcome)
          size
        ∙ ap
            (λ d.
              is_fetched (fetch_of c k.destination a (expected_size file.size_bytes a) d).outcome)
            (probe_file-disk file a j)
        ∙ k.unfinished in
      rw (attempt_file, k.resolved)
        (transfer_file-cancelled k.destination a _ _ fits unfinished k.aborted)

  process_file-cancelled :
      (fuel : ℕ) (world : ℕ → Attempt) (j : Job)
      → IsCutOff c file (world file.attempts) j
      → (process_file fuel c file world j).1 ≡ cancelled
  unfolding process_file
  process_file-cancelled zero world j k =
      let (j', e) = outcome_of _ (attempt_file-cancelled (world file.attempts) j k) in
      rw (process_file, e) refl
  process_file-cancelled (suc fuel) world j k =
      let (j', e) = outcome_of _ (attempt_file-cancelled (world file.attempts) j k) in
      rw (process_file, e) refl

broken_off :
    (is_requested : Bool) (now : Job) (rest : Job → Job × Bool) (step : Job × FileOutcome)
    → step.1 ≡ cancelled
    → (if is_requested then (now, true) else after_file rest step).1 ≡ true
broken_off true now rest step h = refl
broken_off false now rest (j, done) h = cc
broken_off false now rest (j, failed) h = cc
broken_off false now rest (j, cancelled) h = refl

module _ (c : Config) (world : ℕ → FileWorld) (file : DownloadFile) (rest : List DownloadFile)
    (j : Job) (waits : is_completed_file file.status ≡ false)
    (cut : IsCutOff c file ((world file.id).attempts file.attempts) j) where
  -- The loop passes over the completed files and breaks off at the one that is cut off.
  process_files-cancelled :
      (before : List DownloadFile)
      → All (λ f. is_completed_file f.status ≡ true) before
      → (process_files c (before ++ file ∷ rest) world j).1 ≡ true
  unfolding process_files
  process_files-cancelled [] h =
      let arrives = (world file.id).cancel_arrives in
      let j' = update_row (receive_cancel arrives) j in
      let still : IsCutOff c file ((world file.id).attempts file.attempts) j' = record {
        destination = cut.destination;
        resolved = cut.resolved;
        fits = cut.fits;
        unfinished = cut.unfinished;
        aborted = cut.aborted;
      } in
      let step = process_file c.max_attempts c file (world file.id).attempts j' in
      rw waits (
        broken_off (j.row.cancel_requested || arrives) j' (λ x. process_files c rest world x) step
          (process_file-cancelled c file c.max_attempts (world file.id).attempts j' still))
  process_files-cancelled (f ∷ before) (p, h) = rw p (process_files-cancelled before h)

cancelled_status :
    (c : Config) (world : ℕ → FileWorld) (now : ℕ) (j : Job)
    → (process_files c j.row.files world j).1 ≡ true
    → (process_job c world now j).row.status ≡ DownloadStatus.cancelled
unfolding process_job finish_job verdict
cancelled_status c world now j broke_off = rw broke_off

-- A job whose transfer of its first file that is not completed is aborted before it completes, as by a
-- shutdown, and whose files have differing keys, ends CANCELLED; and a restart does not queue it again:
-- it stays CANCELLED with no file to be done.
pub recover_row-cancelled :
    (c : Config) (world : ℕ → FileWorld) (now : ℕ) (j : Job) (before rest : List DownloadFile)
    (file : DownloadFile)
    → j.row.files ≡ before ++ file ∷ rest
    → KeysDiffer j.row.files
    → All (λ f. is_completed_file f.status ≡ true) before
    → is_completed_file file.status ≡ false
    → IsCutOff c file ((world file.id).attempts file.attempts) j
    → ((recover_row (process_job c world now j).row).status ≡ DownloadStatus.cancelled)
      × All (λ f. is_open f.status ≡ false) (recover_row (process_job c world now j).row).files
unfolding recover_row
recover_row-cancelled c world now j before rest file listed u completed waits cut =
    let finished = process_job-IsFinished c world now j u in
    let broke_off : (process_files c j.row.files world j).1 ≡ true =
      ap (λ fs. (process_files c fs world j).1) listed
      ∙ process_files-cancelled c world file rest j waits cut before completed in
    (rw (cancelled_status c world now j broke_off), recovered-closed _ finished.closed)
