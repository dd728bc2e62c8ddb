-- ===== src/Downloads/Job.antt =====
-- packages/server/src/downloads/queue.ts: one job, from `processJob` to `finishJob`. The state is
-- the row of the job and the disk; what the network, the disk's free space, the clock and the
-- users do at each attempt and at each file enters as data. A write of progress is made when it is
-- queued; Downloads.Progress lets it land later. Failures of the database are left out, and so is
-- what `runPostProcessing` tells others.
pub mod Effect
pub mod Settled
pub mod Retries
pub mod Content
pub mod Finish
mod Tests
use circleftp_jellyfin.Base.{
  ℕ, zero, suc, ◌+◌, List, [], ◌∷◌, Option, none, some, Bool, true, false, ◌||◌, if◌then◌else◌, ltb,
}
use circleftp_jellyfin.Downloads.Rows.{
  mark_file_failed, persist_reports, start_file, complete_file, cancel_file, retry_file, store_size,
  finish_job,
}
use circleftp_jellyfin.Base.Text.{Text}
use circleftp_jellyfin.Base.Result.{ok, err}
use circleftp_jellyfin.Downloads.Disk.{Disk}
use circleftp_jellyfin.Downloads.Paths.{resolve_destination, check_space}
use circleftp_jellyfin.Downloads.Fetcher.{Reply, Outcome, fetched, Fetch, Options, fetch_file}
use circleftp_jellyfin.Downloads.Model.{is_completed_file, DownloadFile, Download}

-- `env`
pub record Config : Type 0 where
  pub media_root : Text
  pub max_attempts : ℕ
  pub min_free_gib : ℕ
  pub stall_timeout : ℕ

-- What happens around one attempt at a file.
pub record Attempt : Type 0 where
  -- `probeSize(file.url)`, if it is asked.
  pub probed : Option ℕ
  -- The free bytes; `none` where they are unknown.
  pub free : Option ℕ
  pub host : Option ℕ → Reply
  -- `controller.signal.aborted` when the transfer has failed.
  pub is_aborted : Bool
  -- The text of the error message, if the attempt comes to one.
  pub message : Text
  pub now : ℕ

pub data FileOutcome : Type 0 where
  done failed cancelled : FileOutcome

pub record Job : Type 0 where
  pub row : Download
  pub disk : Disk

abbrev pub update_row : (Download → Download) → Job → Job
update_row f j = record j { row = f j.row }

-- How one attempt ends: for good, or with an error that may be tried again.
pub data AttemptEnd : Type 0 where
  ends : FileOutcome → Job → AttemptEnd
  throws : Job → AttemptEnd

-- The `try` and its `catch`, as far as the cancellation.
unfoldable pub after_fetch : ℕ → Attempt → Job → Fetch → AttemptEnd
after_fetch id a j f =
    let j' = record j { row = persist_reports id 0 f.reports j.row; disk = f.disk } in
    elim f.outcome [
      | fetched bytes _ ↦ ends done (update_row (complete_file id bytes a.now) j')
      | Outcome.cancelled ↦ ends cancelled (update_row (cancel_file id) j')
      | _ ↦ if a.is_aborted then ends cancelled (update_row (cancel_file id) j') else throws j'
    ]

-- `file.sizeBytes ?? (await this.probeAndStore(file))`
unfoldable pub probe_file : DownloadFile → Attempt → Job → Option ℕ × Job
probe_file file a j = elim file.size_bytes [
  | some n ↦ (some n, j)
  | none ↦ (a.probed, update_row (store_size file.id a.probed) j)
]

-- The space check, the start of the attempt and the transfer.
unfoldable pub transfer_file : Config → Text → DownloadFile → Attempt → Option ℕ → Job → AttemptEnd
transfer_file c destination file a probed j =
    let options : Options = record {
      destination = destination;
      expected_size = probed;
      stall_timeout = c.stall_timeout;
    } in
    if (check_space c.min_free_gib a.free probed).is_ok
    then after_fetch file.id a (update_row (start_file file.id) j)
        (fetch_file options j.disk a.host)
    else ends failed (update_row (mark_file_failed file.id a.message a.now) j)

-- `processFile` up to its decision about another attempt; `file` is the row as the job read it.
unfoldable pub attempt_file : Config → DownloadFile → Attempt → Job → AttemptEnd
attempt_file c file a j = elim (resolve_destination c.media_root j.row.folder_name file.rel_path) [
  | err e ↦ ends failed (update_row (mark_file_failed file.id a.message a.now) j)
  | ok destination ↦
      transfer_file c destination file a (probe_file file a j).0 (probe_file file a j).1
]

-- `processFile`. Its own recursion is on fuel; at the last round the test fails by itself when the
-- fuel is at least `max_attempts - attempts`.
unfoldable pub give_up : ℕ → Attempt → Job → Job
give_up id a = update_row (mark_file_failed id a.message a.now)

unfoldable pub process_file : ℕ → Config → DownloadFile → (ℕ → Attempt) → Job → Job × FileOutcome
process_file zero c file world j = elim (attempt_file c file (world file.attempts) j) [
  | ends outcome j' ↦ (j', outcome)
  | throws j' ↦ (give_up file.id (world file.attempts) j', failed)
]
process_file (suc fuel) c file world j =
    let attempts = file.attempts + 1 in
    let a = world file.attempts in
    elim (attempt_file c file a j) [
      | ends outcome j' ↦ (j', outcome)
      | throws j' ↦ elim (ltb attempts c.max_attempts) [
        | true ↦
            process_file fuel c (record file { attempts = attempts }) world
              (update_row (retry_file file.id a.message) j')
        | false ↦ (give_up file.id a j', failed)
      ]
    ]

-- What happens around one file: whether a cancellation has been requested by the time the job
-- reaches it, and its attempts.
pub record FileWorld : Type 0 where
  pub cancel_arrives : Bool
  pub attempts : ℕ → Attempt

abbrev pub receive_cancel : Bool → Download → Download
receive_cancel arrives d = record d { cancel_requested = d.cancel_requested || arrives }

abbrev pub after_file : (Job → Job × Bool) → Job × FileOutcome → Job × Bool
after_file rest (j, done) = rest j
after_file rest (j, failed) = rest j
after_file rest (j, cancelled) = (j, true)

-- The loop of `processJob` over the files as they were when it started; the flag says whether it
-- broke off because of a cancellation.
unfoldable pub process_files : Config → List DownloadFile → (ℕ → FileWorld) → Job → Job × Bool
process_files c [] world j = (j, false)
process_files c (file ∷ files) world j =
    let rest = λ (j : Job). process_files c files world j in
    let j' = update_row (receive_cancel (world file.id).cancel_arrives) j in
    let step = process_file c.max_attempts c file (world file.id).attempts j' in
    if is_completed_file file.status
    then rest j
    else if j'.row.cancel_requested
    then (j', true)
    else after_file rest step

-- `processJob`
unfoldable pub process_job : Config → (ℕ → FileWorld) → ℕ → Job → Job
process_job c world now j =
    let result = process_files c j.row.files world j in
    update_row (finish_job result.1 now) result.0
