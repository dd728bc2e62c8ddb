-- ===== src/Downloads/Queue.antt =====
-- packages/server/src/downloads/queue.ts: the class `DownloadQueue` over the table of downloads.
-- The parts of `drain` between two waits are taken as one step.
pub mod Recovery
pub mod Drain
pub mod Shutdown
use circleftp_jellyfin.Base.{
  ℕ, zero, suc, ◌+◌, ◌-◌, List, [], ◌∷◌, ◌++◌, Option, none, some, Bool, true, false, ◌&&◌, ◌||◌,
  not, map, if◌then◌else◌, ◌==◌, ltb, leb, find, filter, count, any,
}
use circleftp_jellyfin.Downloads.Model.{
  DownloadStatus, FileStatus, is_queued, is_running, is_running_file, DownloadFile, Download,
  Downloads, find_download, update_download, update_files,
}
use circleftp_jellyfin.Downloads.Disk.{Disk}
use circleftp_jellyfin.Downloads.Job.{Config, Job, FileWorld, process_job}

-- `recoverFromCrash`, on one row.
unfoldable pub recover_row : Download → Download
recover_row d =
    update_files (λ f. is_running_file f.status) (λ f. record f { status = FileStatus.pending })
      (record d {
        status = if is_running d.status then DownloadStatus.queued else d.status;
        started_at = if is_running d.status then none else d.started_at;
      })

unfoldable pub recover_from_crash : Downloads → Downloads
recover_from_crash = map recover_row

-- `running`, `stopped` and the keys of `aborts`, beside the table.
pub record QueueState : Type 0 where
  pub downloads : Downloads
  pub running : ℕ
  pub is_stopped : Bool
  pub in_flight : List ℕ

-- `findFirst({ where: { status: 'QUEUED' }, orderBy: { createdAt: 'asc' } })`
abbrev pub earlier : Download → Option Download → Download
earlier d none = d
earlier d (some e) = if leb d.created_at e.created_at then d else e

unfoldable pub next_queued : Downloads → Option Download
next_queued [] = none
next_queued (d ∷ ds) =
    let later = next_queued ds in if is_queued d.status then some (earlier d later) else later

unfoldable pub start_row : ℕ → Download → Download
start_row now d = record d { status = DownloadStatus.running; started_at = some now }

-- `updateMany({ where: { id, status: 'QUEUED' } })`: the rows, and how many were claimed.
abbrev pub is_claimable : ℕ → Download → Bool
is_claimable id d = d.id == id && is_queued d.status

unfoldable pub claim : ℕ → ℕ → Downloads → Downloads × ℕ
claim id now ds =
    (map (λ d. if is_claimable id d then start_row now d else d) ds, count (is_claimable id) ds)

-- The loop of `drain`, on fuel for the rounds.
unfoldable pub drain : ℕ → ℕ → ℕ → QueueState → QueueState
drain zero concurrency now q = q
drain (suc fuel) concurrency now q =
    if not q.is_stopped && ltb q.running concurrency
    then elim (next_queued q.downloads) [
      | none ↦ q
      | some next ↦
          let (downloads, claimed) = claim next.id now q.downloads in
          let retried = drain fuel concurrency now (record q { downloads = downloads }) in
          let started = drain fuel concurrency now (record q {
            downloads = downloads;
            running = q.running + 1;
            in_flight = next.id ∷ q.in_flight;
          }) in
          if claimed == 0 then retried else started
    ]
    else q

-- `wake`, with a round for every row.
abbrev pub queued_count : Downloads → ℕ
queued_count = count (λ d. is_queued d.status)

unfoldable pub wake : ℕ → ℕ → QueueState → QueueState
wake concurrency now q =
    if q.is_stopped then q else drain (queued_count q.downloads) concurrency now q

-- `runJob` to its end, with the `finally` of `drain`: the slot is free again.
unfoldable pub finish_run : Config → (ℕ → FileWorld) → ℕ → Disk → ℕ → QueueState → QueueState
finish_run c world now disk id q = record q {
  downloads =
      update_download id (λ d. (process_job c world now (record { row = d; disk = disk })).row)
        q.downloads;
  running = q.running - 1;
  in_flight = filter (λ i. not (i == id)) q.in_flight;
}

-- `abort`: whether this process runs the job.
unfoldable pub abort : ℕ → QueueState → Bool
abort id q = any (λ i. i == id) q.in_flight

unfoldable pub shutdown : QueueState → QueueState
shutdown q = record q { is_stopped = true }
