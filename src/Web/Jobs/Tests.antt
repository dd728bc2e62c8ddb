-- ===== src/Web/Jobs/Tests.antt =====
-- The theorem on the buttons of a job at one that has failed.
use circleftp_jellyfin.Base.{ℕ, ◌+◌, refl, [], ◌∷◌, Option, none, some, false}
use circleftp_jellyfin.Base.Text.{codes}
use circleftp_jellyfin.Circleftp.Text.Names.{Platform}
use circleftp_jellyfin.Downloads.Model.{DownloadFile, FileStatus, Download, DownloadStatus}
use circleftp_jellyfin.Downloads.Service.{State}
use circleftp_jellyfin.Web.Jobs.{cancel_button, retry_button, delete_button}
use circleftp_jellyfin.Web.Jobs.Laws.{Agrees, job_buttons-Agrees}

abbrev platform : Platform
platform = record { pathname = λ url. some url; decode_component = λ t. some t; number = λ t. none }

abbrev file : ℕ → FileStatus → DownloadFile
file id status = record {
  id = id;
  url = codes "http://host/a.mkv";
  rel_path = codes "a.mkv";
  label = codes "a";
  season = none;
  episode = none;
  status = status;
  size_bytes = none;
  downloaded_bytes = 0;
  attempts = 0;
  error = none;
  finished_at = none;
}

abbrev row : ℕ → ℕ → DownloadStatus → Option ℕ → FileStatus → ℕ → Download
row id post_id status finished_at file_status created_at = record {
  id = id;
  post_id = post_id;
  title = codes "Film";
  folder_name = codes "Film";
  status = status;
  total_bytes = none;
  downloaded_bytes = 0;
  error = none;
  seasons = [];
  cancel_requested = false;
  user_id = none;
  files = file (10 + id) file_status ∷ [];
  created_at = created_at;
  started_at = none;
  finished_at = finished_at;
}

abbrev over : Download
over = row 1 9 DownloadStatus.failed (some 50) FileStatus.failed 10

abbrev table : State
table = record { downloads = over ∷ []; disk = λ _. none; events = [] }

buttons_of_failed :
    Agrees platform (codes "/srv") 60 table (cancel_button over)
    × Agrees platform (codes "/srv") 60 table (retry_button over)
    × Agrees platform (codes "/srv") 60 table (delete_button over)
buttons_of_failed = job_buttons-Agrees platform (codes "/srv") 60 table over refl (λ e. refl)
