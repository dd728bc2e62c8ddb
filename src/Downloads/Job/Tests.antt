-- ===== src/Downloads/Job/Tests.antt =====
-- Runs of downloads/fetcher.ts and of a job of downloads/queue.ts, and their theorems at concrete
-- inputs: a file of five bytes, two of which an earlier attempt has left in the partial file.
use circleftp_jellyfin.Base.{
  ℕ, ◌+◌, ◌≡◌, refl, subst, [], ◌∷◌, ◌++◌, Option, none, some, true, false, drop, arith, All, zero,
  suc, append-nil, eq_of_some, ◌∙◌, inl,
}
use circleftp_jellyfin.Base.Text.{Text, codes, is_space}
use circleftp_jellyfin.Base.Result.{ok}
use circleftp_jellyfin.Circleftp.Text.{is_illegal, blank_illegal, collapse, sanitize}
use circleftp_jellyfin.Downloads.Disk.{Bytes, Disk, put, file_size, rename}
use circleftp_jellyfin.Downloads.Paths.{
  resolve_destination, part_path_for, check_space, enter, enter_all, join_arguments, path_resolve,
  safe_segments, split_slash,
}
use circleftp_jellyfin.Downloads.Model.{DownloadStatus, FileStatus, DownloadFile}
use circleftp_jellyfin.Downloads.Rows.{
  retry_file, persist_reports, start_file, store_size, cancel_file, complete_file, mark_file_failed,
  persist_progress, recompute_totals,
}
use circleftp_jellyfin.Downloads.Fetcher.{
  Reply, response, unreachable, request_aborted, Options, fetched, ended, fetch_file, request_file,
  handle_response, receive, settle, complete, finish_file,
}
use circleftp_jellyfin.Downloads.Fetcher.Headers.{
  total_from_headers, digits_to_end, number_of, range_total,
}
use circleftp_jellyfin.Downloads.Fetcher.Transfer.{
  chunk, check, start, transfer, transfer-received, count_chunk,
}
use circleftp_jellyfin.Downloads.Queue.{recover_row}
use circleftp_jellyfin.Downloads.Queue.Shutdown.{IsCutOff, recover_row-cancelled}
use circleftp_jellyfin.Downloads.Job.Effect.{Processed, process_file-Processed}
use circleftp_jellyfin.Downloads.Job.Settled.{AllSettled, process_files-AllSettled}
use circleftp_jellyfin.Downloads.Job.Finish.{is_open, IsFinished, process_job-IsFinished}
use circleftp_jellyfin.Downloads.Job.Retries.{decide, another, process_file_lem}
use circleftp_jellyfin.Downloads.Job.Content.{Holds, IsExpected, process_file-Holds}
use circleftp_jellyfin.Downloads.Fetcher.Serving.{IsPrefix}
use circleftp_jellyfin.Downloads.Fetcher.Kept.{IsSafe, IsSound}
use circleftp_jellyfin.Downloads.Fetcher.Laws.{IsHonest, fetch_file-IsSound}
use circleftp_jellyfin.Downloads.Job.{
  Config, Attempt, Job, FileWorld, attempt_file, transfer_file, after_fetch, probe_file, give_up,
  process_file, process_files, process_job,
}

abbrev content : Bytes
content = 10 ∷ 20 ∷ 30 ∷ 40 ∷ 50 ∷ []

abbrev destination : Text
destination = codes "/srv/Film/a.mkv"

abbrev half_done : Disk
half_done path = put (λ _. none) (part_path_for destination) (some (10 ∷ 20 ∷ [])) path

-- A host that serves ranges.
abbrev serve : Option ℕ → Reply
serve none = response (record {
  status = 200;
  content_range = [];
  content_length = some (codes "5");
  started_at = 0;
  ticks = chunk content 10 ∷ check 20 ∷ [];
  finish = ended;
  ended_at = 30;
  flushed = 0;
})
serve (some n) = response (record {
  status = 206;
  content_range = codes "bytes */5";
  content_length = none;
  started_at = 0;
  ticks = chunk (drop n content) 10 ∷ check 20 ∷ [];
  finish = ended;
  ended_at = 30;
  flushed = 0;
})

abbrev options : Options
options = record { destination = destination; expected_size = some 5; stall_timeout = 60000 }

resumed : (fetch_file options half_done serve).outcome ≡ fetched 5 false
unfolding fetch_file put file_size rename request_file handle_response receive settle transfer
    complete total_from_headers finish_file
resumed = refl

half_done-IsSafe : (Trusted : ℕ → Type 0) → IsSafe content destination Trusted half_done
unfolding put
half_done-IsSafe Trusted = record {
  part = λ b e. subst (λ b. IsPrefix b content) (eq_of_some e) (30 ∷ 40 ∷ 50 ∷ [], refl);
  final = λ b e. cc;
}

serve-IsHonest : (range : Option ℕ) → IsHonest content range (serve range)
unfolding total_from_headers
serve-IsHonest none = record {
  unsatisfiable = λ e. absurd (omega (arith, e));
  partial = λ e. absurd (omega (arith, e));
  whole = λ _. (([], refl), inl refl);
}
serve-IsHonest (some n) = record {
  unsatisfiable = λ e. absurd (omega (arith, e));
  partial = λ _. (([], append-nil _ ∙ append-nil _), inl refl);
  whole = λ e. absurd (omega (arith, e));
}

fetch_file-IsSound_example :
    IsSound content destination (λ n. n ≡ 5) half_done (fetch_file options half_done serve)
fetch_file-IsSound_example =
    fetch_file-IsSound content options (λ n. n ≡ 5) half_done serve (λ n e. ground arith)
      (half_done-IsSafe (λ n. n ≡ 5)) serve-IsHonest

received_part :
    (rest : Bytes) × ((transfer 60000 none 2
          (chunk (30 ∷ []) 10 ∷ check 70000 ∷ chunk (40 ∷ []) 70010 ∷ [])
          (start 0)).progress.received
        ++ rest
      ≡ 30 ∷ 40 ∷ [])
    × ((transfer 60000 none 2
            (chunk (30 ∷ []) 10 ∷ check 70000 ∷ chunk (40 ∷ []) 70010 ∷ [])
            (start 0)).is_stalled
          ≡ false
        → rest ≡ [])
received_part =
    transfer-received 60000 none 2 (chunk (30 ∷ []) 10 ∷ check 70000 ∷ chunk (40 ∷ []) 70010 ∷ [])
      (start 0)

abbrev config : Config
config = record {
  media_root = codes "/srv";
  max_attempts = 3;
  min_free_gib = 5;
  stall_timeout = 60000;
}

-- The first attempt finds no host, every later one is served.
abbrev host_at : ℕ → Option ℕ → Reply
host_at zero range = unreachable
host_at (suc k) range = serve range

abbrev world : ℕ → Attempt
world k = record {
  probed = some 5;
  free = none;
  host = host_at k;
  is_aborted = false;
  message = codes "unreachable";
  now = 100 + k;
}

world-IsHonest : (k : ℕ) (range : Option ℕ) → IsHonest content range ((world k).host range)
world-IsHonest zero range = tt
world-IsHonest (suc k) range = serve-IsHonest range

abbrev file : DownloadFile
file = record {
  id = 7;
  url = codes "http://host/a.mkv";
  rel_path = codes "a.mkv";
  label = codes "a";
  season = none;
  episode = none;
  status = FileStatus.pending;
  size_bytes = none;
  downloaded_bytes = 0;
  attempts = 0;
  error = none;
  finished_at = none;
}

abbrev job : Job
job = record {
  row = record {
    id = 1;
    post_id = 9;
    title = codes "Film";
    folder_name = codes "Film";
    status = DownloadStatus.running;
    total_bytes = none;
    downloaded_bytes = 0;
    error = none;
    seasons = [];
    cancel_requested = false;
    user_id = none;
    files = file ∷ [];
    created_at = 0;
    started_at = some 1;
    finished_at = none;
  };
  disk = half_done;
}

abbrev worlds : ℕ → FileWorld
worlds _ = record { cancel_arrives = false; attempts = world }

Processed-once : Processed 7 job.row (process_file 3 config file world job)
Processed-once = process_file-Processed 3 config file world job

enough_fuel :
    process_file 3 config file world job
    ≡ decide config file
        (world 0)
        (process_file 3 config (another file) world)
        (attempt_file config file (world 0) job)
enough_fuel = process_file_lem config file world job

process_file-Holds_example :
    Holds content destination (IsExpected file world) (process_file 3 config file world job)
unfolding resolve_destination is_illegal is_space
process_file-Holds_example =
    process_file-Holds content destination 3 config file world job refl
      (half_done-IsSafe (IsExpected file world)) world-IsHonest

retried : (process_files config (file ∷ []) worlds job).1 ≡ false
unfolding process_files process_file attempt_file resolve_destination is_space is_illegal
    transfer_file check_space after_fetch fetch_file file_size probe_file put request_file
    retry_file persist_reports start_file store_size blank_illegal collapse sanitize rename
    digits_to_end number_of range_total total_from_headers count_chunk transfer complete finish_file
    handle_response receive settle give_up enter enter_all join_arguments path_resolve safe_segments
    split_slash cancel_file complete_file mark_file_failed persist_progress recompute_totals
retried = refl

AllSettled-process_files : AllSettled (process_files config (file ∷ []) worlds job).0.row.files
AllSettled-process_files = process_files-AllSettled config worlds job (refl, tt) retried

process_job-IsFinished_example : IsFinished 200 (process_job config worlds 200 job).row
process_job-IsFinished_example = process_job-IsFinished config worlds 200 job (refl, tt)

-- The server shuts down while the file is in transfer.
abbrev aborted_worlds : ℕ → FileWorld
aborted_worlds _ = record {
  cancel_arrives = false;
  attempts = λ k. record {
    probed = some 5;
    free = none;
    host = λ _. request_aborted;
    is_aborted = true;
    message = codes "aborted";
    now = 100;
  };
}

film_path :
    resolve_destination (codes "/srv") (codes "Film") (codes "a.mkv") ≡ ok (codes "/srv/Film/a.mkv")
unfolding resolve_destination is_illegal is_space
film_path = refl

file-IsCutOff : IsCutOff config file ((aborted_worlds 7).attempts 0) job
unfolding check_space fetch_file file_size put request_file
file-IsCutOff = record {
  destination = destination;
  resolved = film_path;
  fits = refl;
  unfinished = refl;
  aborted = refl;
}

recover_row-cancelled_example :
    ((recover_row (process_job config aborted_worlds 200 job).row).status
      ≡ DownloadStatus.cancelled)
    × All
        (λ f. is_open f.status ≡ false)
        (recover_row (process_job config aborted_worlds 200 job).row).files
recover_row-cancelled_example =
    recover_row-cancelled config aborted_worlds 200 job [] [] file refl (refl, tt) tt refl
      file-IsCutOff
