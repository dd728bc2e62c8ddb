-- ===== src/Downloads/Progress.antt =====
-- The chain of progress writes of packages/server/src/downloads/queue.ts (`queueProgressWrite`,
-- `persistProgress`, `settleProgressWrites`) beside the writes of the job itself, as a relation of the
-- calls of the database. Each call is one step; `recomputeTotals` is two, a read of the files and a
-- write of the sums. A call of the chain may fail, which `persistProgress` catches; that a call of
-- the job itself fails is left out.
pub mod Laws
mod Tests
use circleftp_jellyfin.Base.{
  ℕ, ◌+◌, ◌≡◌, List, [], ◌∷◌, ◌++◌, Option, none, some, if◌then◌else◌, all, take, is_some,
}
use circleftp_jellyfin.Base.Text.{Text}
use circleftp_jellyfin.Downloads.Fetcher.Transfer.{Report}
use circleftp_jellyfin.Downloads.Model.{FileStatus, DownloadFile, Download, update_file}
use circleftp_jellyfin.Downloads.Rows.{
  sum_downloaded, sum_sizes, mark_file_failed, start_file, cancel_file, retry_file, store_size,
}

-- What `recomputeTotals` has read.
pub record Totals : Type 0 where
  pub downloaded : ℕ
  pub total : Option ℕ

abbrev pub totals : List DownloadFile → Totals
totals files = record {
  downloaded = sum_downloaded files;
  total = if all (λ f. is_some f.size_bytes) files then some (sum_sizes files) else none;
}

abbrev pub store_totals : Totals → Download → Download
store_totals t d = record d { downloaded_bytes = t.downloaded; total_bytes = t.total }

-- A run of `recomputeTotals`: none is under way, it is about to read, or about to write.
pub data SumStage : Type 0 where
  idle reading : SumStage
  storing : Totals → SumStage

-- The first call of `persistProgress`.
abbrev pub progress_file : Report → DownloadFile → DownloadFile
progress_file r f = record f {
  downloaded_bytes = r.bytes_on_disk;
  size_bytes = elim r.total_bytes [ none ↦ f.size_bytes | some t ↦ some t ];
}

unfoldable pub set_progress : ℕ → Report → Download → Download
set_progress id r = update_file id (progress_file r)

-- The writes of `processFile` to the row of a file.
pub data Write : Type 0 where
  starts cancels : ℕ → Write
  completes : ℕ → ℕ → ℕ → Write
  retries : ℕ → Text → Write
  fails : ℕ → Text → ℕ → Write
  sizes : ℕ → Option ℕ → Write

abbrev pub completed_file : ℕ → ℕ → DownloadFile → DownloadFile
completed_file bytes now f = record f {
  status = FileStatus.completed;
  downloaded_bytes = bytes;
  size_bytes = some bytes;
  finished_at = some now;
  error = none;
}

unfoldable pub apply : Write → Download → Download
apply (starts id) = start_file id
apply (cancels id) = cancel_file id
apply (completes id bytes now) = update_file id (completed_file bytes now)
apply (retries id message) = retry_file id message
apply (fails id message now) = mark_file_failed id message now
apply (sizes id size) = store_size id size

unfoldable pub apply_all : List Write → Download → Download
apply_all [] d = d
apply_all (w ∷ ws) d = apply_all ws (apply w d)

-- `recomputeTotals` follows the completion of a file.
abbrev pub stage_after : Write → SumStage
stage_after (completes id bytes now) = reading
stage_after _ = idle

pub record Writes : Type 0 where
  pub row : Download
  -- The writes of `progressWrites` that have not begun, the oldest first.
  pub pending : List (ℕ × Report)
  -- Where the write of the chain is that has begun, and where the job is.
  pub chain : SumStage
  pub job : SumStage

abbrev pub untouched : Download → Writes
untouched d = record { row = d; pending = []; chain = idle; job = idle }

-- One call of the chain, a report that is queued, or a call of the job's `recomputeTotals`.
pub data Call : Writes → Writes → Type 0 where
  queue :
      (s : Writes) (id : ℕ) (r : Report)
      → s.job ≡ idle
      → Call s (record s { pending = s.pending ++ (id, r) ∷ [] })
  write :
      (s : Writes) (id : ℕ) (r : Report) (rest : List (ℕ × Report))
      → s.chain ≡ idle
      → s.pending ≡ (id, r) ∷ rest
      → Call s (record s { row = set_progress id r s.row; pending = rest; chain = reading })
  read :
      (s : Writes) → s.chain ≡ reading → Call s (record s { chain = storing (totals s.row.files) })
  store :
      (s : Writes) (t : Totals)
      → s.chain ≡ storing t
      → Call s (record s { row = store_totals t s.row; chain = idle })
  fail_write :
      (s : Writes) (w : ℕ × Report) (rest : List (ℕ × Report))
      → s.chain ≡ idle
      → s.pending ≡ w ∷ rest
      → Call s (record s { pending = rest })
  fail_totals : (s : Writes) → Call s (record s { chain = idle })
  read_job :
      (s : Writes) → s.job ≡ reading → Call s (record s { job = storing (totals s.row.files) })
  store_job :
      (s : Writes) (t : Totals)
      → s.job ≡ storing t
      → Call s (record s { row = store_totals t s.row; job = idle })

-- The steps from one state to another, with the writes that the job makes on the way.
pub data Calls : Writes → List Write → Writes → Type 0 where
  here : (s : Writes) → Calls s [] s
  silently : {s t u : Writes} {ws : List Write} → Call s t → Calls t ws u → Calls s ws u
  writing :
      {s u : Writes} {ws : List Write} (w : Write)
      → s.job ≡ idle
      → Calls (record s { row = apply w s.row; job = stage_after w }) ws u
      → Calls s (w ∷ ws) u

-- `settleProgressWrites` has returned, and the job has nothing under way: `finishJob` goes on.
pub record IsSettled (s : Writes) : Type 0 where
  pub none_pending : s.pending ≡ []
  pub chain_idle : s.chain ≡ idle
  pub job_idle : s.job ≡ idle
