-- ===== src/Downloads/Service.antt =====
-- packages/server/src/downloads/service.ts: creating, cancelling, retrying and deleting a job.
pub mod Invariant
pub mod Requests
pub mod Table
pub mod Race
pub mod Announced
mod Tests
use circleftp_jellyfin.Base.{
  ℕ, ◌+◌, List, [], ◌∷◌, ◌++◌, none, some, Bool, true, false, ◌&&◌, not, map, if◌then◌else◌, ◌==◌,
  filter, any,
}
use circleftp_jellyfin.Base.Text.{Text}
use circleftp_jellyfin.Base.Result.{
  Result, ok, err, ◌>>=◌, ◌>>◌, throw_if, or_throw, bad_request, not_found, conflict,
}
use circleftp_jellyfin.Circleftp.Plan.{PlannedFile, DownloadPlan}
use circleftp_jellyfin.Downloads.Disk.{Disk, put}
use circleftp_jellyfin.Downloads.Paths.{resolve_destination, part_path_for, is_empty}
use circleftp_jellyfin.Downloads.Model.{
  DownloadStatus, FileStatus, is_active_status, is_queued, is_pending_file, is_completed_file,
  DownloadFile, Download, Downloads, find_download, update_download, update_files,
}

-- `ServerEvent`: what a stream begins with, and what `events.publish` sends; a DTO shows the row.
pub data Event : Type 0 where
  snapshot : Downloads → Event
  created progress finished : Download → Event
  deleted heartbeat : ℕ → Event

pub record State : Type 0 where
  pub downloads : Downloads
  pub disk : Disk
  pub events : List Event

unfoldable pub publish_download : ℕ → (Download → Event) → State → State
publish_download id event s = elim (find_download id s.downloads) [
  | none ↦ s
  | some d ↦ record s { events = s.events ++ event d ∷ [] }
]

pub record CreateOptions : Type 0 where
  pub post_id : ℕ
  pub seasons : List Text
  pub user_id : ℕ

-- What the database gives to a new row: its key, and one for each file, by position.
pub record Keys : Type 0 where
  pub download : ℕ
  pub file : ℕ → ℕ

unfoldable pub new_files : (ℕ → ℕ) → ℕ → List PlannedFile → List DownloadFile
new_files key index [] = []
new_files key index (f ∷ fs) =
    record {
      id = key index;
      url = f.url;
      rel_path = f.rel_path;
      label = f.label;
      season = f.season;
      episode = f.episode;
      status = FileStatus.pending;
      size_bytes = none;
      downloaded_bytes = 0;
      attempts = 0;
      error = none;
      finished_at = none;
    }
    ∷ new_files key (index + 1) fs

-- `findFirst({ where: { postId, status: { in: ['QUEUED', 'RUNNING'] } } })`
abbrev pub is_in_flight : ℕ → Download → Bool
is_in_flight post_id d = d.post_id == post_id && is_active_status d.status

abbrev pub new_download : CreateOptions → Text → DownloadPlan → Keys → ℕ → Download
new_download o title plan keys now = record {
  id = keys.download;
  post_id = o.post_id;
  title = title;
  folder_name = plan.folder;
  status = DownloadStatus.queued;
  total_bytes = none;
  downloaded_bytes = 0;
  error = none;
  seasons = o.seasons;
  cancel_requested = false;
  user_id = some o.user_id;
  files = new_files keys.file 0 plan.files;
  created_at = now;
  started_at = none;
  finished_at = none;
}

-- `createDownload`. `fetched` is the title and the plan that `fetchPost` and `buildPlan` give, or
-- the error of `fetchPost`.
unfoldable pub create_download :
    CreateOptions → Result (Text × DownloadPlan) → Keys → ℕ → State → Result State
create_download o fetched keys now s = do
  throw_if (any (is_in_flight o.post_id) s.downloads) (conflict "already_queued")
  (title, plan) ← fetched
  throw_if (is_empty plan.files) bad_request
  let row = new_download o title plan keys now
  ok (record s { downloads = s.downloads ++ row ∷ []; events = s.events ++ created row ∷ [] })

-- The row changes of `requestCancel`, with nothing running the job and with a worker on it.
unfoldable pub cancel_queued : ℕ → Download → Download
cancel_queued now d =
    update_files (λ f. is_pending_file f.status) (λ f. record f { status = FileStatus.cancelled })
      (record d {
        status = DownloadStatus.cancelled;
        cancel_requested = true;
        finished_at = some now;
      })

unfoldable pub flag_cancel : Download → Download
flag_cancel d = record d { cancel_requested = true }

unfoldable pub request_cancel : ℕ → ℕ → State → Result State
request_cancel id now s = do
  download ← or_throw (find_download id s.downloads) not_found
  throw_if (not (is_active_status download.status)) (conflict "not_active")
  let change = if is_queued download.status then cancel_queued now else flag_cancel
  ok (publish_download id progress (record s { downloads = update_download id change s.downloads }))

-- The row changes of `retryDownload`.
unfoldable pub requeue : Download → Download
requeue d =
    update_files (λ f. not (is_completed_file f.status))
      (λ f. record f { status = FileStatus.pending; error = none; attempts = 0 })
      (record d {
        status = DownloadStatus.queued;
        error = none;
        cancel_requested = false;
        finished_at = none;
        started_at = none;
      })

unfoldable pub retry_download : ℕ → State → Result State
retry_download id s = do
  download ← or_throw (find_download id s.downloads) not_found
  throw_if (is_active_status download.status) (conflict "already_active")
  throw_if (not (any (λ f. not (is_completed_file f.status)) download.files))
      (conflict "nothing_to_retry")
  ok (
      publish_download id progress
        (record s { downloads = update_download id requeue s.downloads }))

-- `removeDownloadFiles` of paths.ts; the empty directories that it removes hold no file.
unfoldable pub remove_download_files : Text → Text → List Text → Disk → Disk
remove_download_files root folder [] disk = disk
remove_download_files root folder (rel_path ∷ rest) disk =
    remove_download_files root folder rest (elim (resolve_destination root folder rel_path) [
      | err e ↦ disk
      | ok destination ↦ put (put disk destination none) (part_path_for destination) none
    ])

unfoldable pub delete_download : Text → ℕ → Bool → State → Result State
delete_download root id delete_files s = do
  download ← or_throw (find_download id s.downloads) not_found
  throw_if (is_active_status download.status) (conflict "still_active")
  let rel_paths = map (λ f. f.rel_path) download.files
  let disk =
      if delete_files
      then remove_download_files root download.folder_name rel_paths s.disk
      else s.disk
  ok (record {
    downloads = filter (λ d. not (d.id == id)) s.downloads;
    disk = disk;
    events = s.events ++ deleted id ∷ [];
  })
