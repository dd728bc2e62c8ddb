-- ===== src/Downloads/Model.antt =====
-- The rows of the tables `downloads` and `download_files` (packages/server/prisma/schema.prisma,
-- packages/shared/src/enums.ts). Identifiers, which the code only compares, are numbers; times are
-- milliseconds. A download holds its files, in the order of their
-- column `order`. The columns `kind` and `posterImage`, which are only displayed, are left out.
use circleftp_jellyfin.Base.{ℕ, List, Option, Bool, true, false, map, if◌then◌else◌, ◌==◌, find}
use circleftp_jellyfin.Base.Text.{Text}

pub data DownloadStatus : Type 0 where
  queued running completed partial failed cancelled : DownloadStatus

pub data FileStatus : Type 0 where
  pending running completed failed skipped cancelled : FileStatus

-- `ACTIVE_DOWNLOAD_STATUSES.includes(status)`
abbrev pub is_active_status : DownloadStatus → Bool
is_active_status DownloadStatus.queued = true
is_active_status DownloadStatus.running = true
is_active_status _ = false

abbrev pub is_queued : DownloadStatus → Bool
is_queued DownloadStatus.queued = true
is_queued _ = false

abbrev pub is_running : DownloadStatus → Bool
is_running DownloadStatus.running = true
is_running _ = false

abbrev pub is_pending_file : FileStatus → Bool
is_pending_file FileStatus.pending = true
is_pending_file _ = false

abbrev pub is_running_file : FileStatus → Bool
is_running_file FileStatus.running = true
is_running_file _ = false

abbrev pub is_completed_file : FileStatus → Bool
is_completed_file FileStatus.completed = true
is_completed_file _ = false

abbrev pub is_failed_file : FileStatus → Bool
is_failed_file FileStatus.failed = true
is_failed_file _ = false

pub record DownloadFile : Type 0 where
  pub id : ℕ
  pub url : Text
  pub rel_path : Text
  pub label : Text
  pub season : Option Text
  pub episode : Option ℕ
  pub status : FileStatus
  pub size_bytes : Option ℕ
  pub downloaded_bytes : ℕ
  pub attempts : ℕ
  pub error : Option Text
  pub finished_at : Option ℕ

pub record Download : Type 0 where
  pub id : ℕ
  pub post_id : ℕ
  pub title : Text
  pub folder_name : Text
  pub status : DownloadStatus
  pub total_bytes : Option ℕ
  pub downloaded_bytes : ℕ
  pub error : Option Text
  pub seasons : List Text
  pub cancel_requested : Bool
  pub user_id : Option ℕ
  pub files : List DownloadFile
  pub created_at : ℕ
  pub started_at : Option ℕ
  pub finished_at : Option ℕ

abbrev pub Downloads : Type 0
Downloads = List Download

-- `findUnique({ where: { id } })`
abbrev pub find_download : ℕ → Downloads → Option Download
find_download id = find (λ d. d.id == id)

-- `update({ where: { id } })`
abbrev pub update_download : ℕ → (Download → Download) → Downloads → Downloads
update_download id f = map (λ d. if d.id == id then f d else d)

-- `updateMany` over the files of a download.
abbrev pub update_files :
    (DownloadFile → Bool) → (DownloadFile → DownloadFile) → Download → Download
update_files p f d = record d { files = map (λ x. if p x then f x else x) d.files }

-- `downloadFile.update({ where: { id } })`
abbrev pub update_file : ℕ → (DownloadFile → DownloadFile) → Download → Download
update_file id f = update_files (λ x. x.id == id) f
