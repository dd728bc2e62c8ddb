-- ===== src/Downloads/Fetcher.antt =====
-- packages/server/src/downloads/fetcher.ts: one file, resumed from its `.part`.
-- What the host, the network and the clock do enters as data: a reply for each possible `Range`
-- header, with the chunks and the timer ticks of the body in the order in which they happen.
pub mod Headers
pub mod Transfer
pub mod Serving
pub mod Kept
pub mod Laws
use circleftp_jellyfin.Base.{
  ℕ, ◌+◌, ◌<◌, List, [], ◌∷◌, ◌++◌, Option, none, some, Bool, true, false, ◌&&◌, ◌||◌, not,
  if◌then◌else◌, ltb, ◌==◌, length, take, get_or_else,
}
use circleftp_jellyfin.Base.Text.{Text}
use circleftp_jellyfin.Downloads.Disk.{Bytes, Disk, file_size, put, rename, content_of}
use circleftp_jellyfin.Downloads.Paths.{part_path_for}
use Headers.{total_from_headers}
use Transfer.{Tick, Report, Progress, transfer, Loop, start}

-- How the body of a response comes to its end.
pub data Finish : Type 0 where
  ended broken aborted : Finish

pub record Response : Type 0 where
  pub status : ℕ
  -- `String(headers['content-range'] ?? '')`
  pub content_range : Text
  pub content_length : Option Text
  pub started_at : ℕ
  pub ticks : List Tick
  pub finish : Finish
  pub ended_at : ℕ
  -- If the transfer fails: how many bytes of this body have reached the disk.
  pub flushed : ℕ

pub data Reply : Type 0 where
  response : Response → Reply
  unreachable request_aborted : Reply

-- `fetched bytes skipped`, or what `fetchFile` throws; `aborted_request` is the error of
-- `request` itself when the signal fires before the headers are there.
pub data Outcome : Type 0 where
  fetched : ℕ → Bool → Outcome
  cancelled stalled failed aborted_request : Outcome

pub record Fetch : Type 0 where
  pub outcome : Outcome
  pub disk : Disk
  pub reports : List Report

pub record Options : Type 0 where
  pub destination : Text
  pub expected_size : Option ℕ
  pub stall_timeout : ℕ

abbrev pub without_reports : Outcome → Disk → Fetch
without_reports outcome disk = record { outcome = outcome; disk = disk; reports = [] }

-- `fs.rename(partPath, destination)` and what follows it.
unfoldable pub finish_file : Text → Disk → Outcome → List Report → Fetch
finish_file destination disk done reports =
    elim (rename disk (part_path_for destination) destination) [
      | none ↦ record { outcome = failed; disk = disk; reports = reports }
      | some disk' ↦ record { outcome = done; disk = disk'; reports = reports }
    ]

-- The check against the announced size, and the rename.
unfoldable pub complete : Text → Disk → Option ℕ → ℕ → ℕ → List Report → Fetch
complete destination disk total written now reports =
    let last : Report = record { at = now; bytes_on_disk = written; total_bytes = total } in
    let reports' = reports ++ last ∷ [] in
    let short : Bool = elim total [ none ↦ false | some t ↦ ltb written t ] in
    if short
    then record { outcome = failed; disk = disk; reports = reports' }
    else finish_file destination disk (fetched written false) reports'

-- The end of the `pipeline`: `base` is what the stream was opened behind. If the transfer failed,
-- the part of the body that had been flushed stays in the partial file.
unfoldable pub settle : Text → Disk → Bytes → Option ℕ → ℕ → Finish → ℕ → ℕ → Loop → Fetch
settle destination disk base total resume_from finish ended_at flushed loop =
    let part = part_path_for destination in
    let body = loop.progress.received in
    let kept = put disk part (some (base ++ take flushed body)) in
    let saved = put disk part (some (base ++ body)) in
    let reports = loop.progress.reports in
    if loop.is_stalled
    then record { outcome = stalled; disk = kept; reports = reports }
    else elim finish [
      | broken ↦ record { outcome = failed; disk = kept; reports = reports }
      | aborted ↦ record { outcome = cancelled; disk = kept; reports = reports }
      | ended ↦ complete destination saved total (resume_from + length body) ended_at reports
    ]

-- From `createWriteStream` to the end: the body is appended to the partial file, or replaces it.
unfoldable pub receive : Options → Disk → ℕ → Response → Fetch
receive o disk resume_from r =
    let base = if ltb 0 resume_from then content_of (disk (part_path_for o.destination)) else [] in
    let total = total_from_headers r.content_range r.content_length resume_from in
    settle o.destination disk base total resume_from r.finish r.ended_at r.flushed
      (transfer o.stall_timeout total resume_from r.ticks (start r.started_at))

-- What is done with a response, by its status.
unfoldable pub handle_response : Options → Disk → ℕ → Response → Fetch
handle_response o disk resume_from r =
    let part = part_path_for o.destination in
    if r.status == 416
    then finish_file o.destination disk (fetched resume_from false) []
    else if r.status == 200 && ltb 0 resume_from
    then receive o (put disk part none) 0 r
    else if r.status == 200 || r.status == 206
    then receive o disk resume_from r
    else without_reports failed disk

-- The request, with `Range: bytes=n-` if `resume_from` is not 0.
unfoldable pub request_file : Options → Disk → (Option ℕ → Reply) → Fetch
request_file o disk host =
    let resume_from = file_size disk (part_path_for o.destination) in
    elim (host (if ltb 0 resume_from then some resume_from else none)) [
      | unreachable ↦ without_reports failed disk
      | request_aborted ↦ without_reports aborted_request disk
      | response r ↦ handle_response o disk resume_from r
    ]

-- `expected === null || finalSize === expected`
abbrev pub is_expected : Option ℕ → ℕ → Bool
is_expected none final_size = true
is_expected (some n) final_size = final_size == n

unfoldable pub fetch_file : Options → Disk → (Option ℕ → Reply) → Fetch
fetch_file o disk host =
    let final_size = file_size disk o.destination in
    if ltb 0 final_size
    then if is_expected o.expected_size final_size
      then without_reports (fetched final_size true) disk
      else request_file o (put disk o.destination none) host
    else request_file o disk host
