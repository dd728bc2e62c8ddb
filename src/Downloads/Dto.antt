-- ===== src/Downloads/Dto.antt =====
-- The DTOs of downloads/service.ts, `toDownloadDto` and `toDownloadFileDto`, with the numbers that
-- lib/bigint.ts passes on. A row has its seasons parsed, its numbers are natural, and it has no kind and
-- no poster; dates are milliseconds.
pub mod Laws
mod Tests
use circleftp_jellyfin.Base.{ℕ, zero, suc, ◌-◌, List, Option, none, some, map, count, length, ◌==◌}
use circleftp_jellyfin.Base.Text.{Text}
use circleftp_jellyfin.Format.{round_div}
use circleftp_jellyfin.Downloads.Model.{
  DownloadStatus, FileStatus, DownloadFile, Download, is_completed_file,
}
use circleftp_jellyfin.Downloads.Speed.{Sample, current_speed}

pub record DownloadFileDto : Type 0 where
  pub id : ℕ
  pub rel_path : Text
  pub label : Text
  pub season : Option Text
  pub episode : Option ℕ
  pub status : FileStatus
  pub size_bytes : Option ℕ
  pub downloaded_bytes : ℕ
  pub attempts : ℕ
  pub error : Option Text

pub record Requester : Type 0 where
  pub id : ℕ
  pub name : Text

pub record DownloadDto : Type 0 where
  pub id : ℕ
  pub post_id : ℕ
  pub title : Text
  pub folder_name : Text
  pub status : DownloadStatus
  pub total_bytes : Option ℕ
  pub downloaded_bytes : ℕ
  pub speed_bps : Option ℕ
  pub eta_seconds : Option ℕ
  pub error : Option Text
  pub seasons : List Text
  pub file_count : ℕ
  pub completed_file_count : ℕ
  pub requested_by : Option Requester
  pub created_at : ℕ
  pub started_at : Option ℕ
  pub finished_at : Option ℕ
  pub files : List DownloadFileDto

unfoldable pub to_download_file_dto : DownloadFile → DownloadFileDto
to_download_file_dto f = record {
  id = f.id;
  rel_path = f.rel_path;
  label = f.label;
  season = f.season;
  episode = f.episode;
  status = f.status;
  size_bytes = f.size_bytes;
  downloaded_bytes = f.downloaded_bytes;
  attempts = f.attempts;
  error = f.error;
}

-- `total - downloaded` stops at 0, where it is known.
abbrev pub remaining_bytes : Option ℕ → ℕ → Option ℕ
remaining_bytes none downloaded = none
remaining_bytes (some total) downloaded = some (total - downloaded)

-- A speed that is unknown or rounded to 0 gives no estimate.
abbrev pub eta : Option ℕ → Option ℕ → Option ℕ
eta none remaining = none
eta (some zero) remaining = none
eta (some (suc v)) none = none
eta (some (suc v)) (some remaining) = some (round_div remaining (suc v))

unfoldable pub to_download_dto : Option Requester → ℕ → List Sample → Download → DownloadDto
unfolding current_speed to_download_file_dto
to_download_dto user now samples d =
    let speed = current_speed d.id d.status now samples in
    record {
      id = d.id;
      post_id = d.post_id;
      title = d.title;
      folder_name = d.folder_name;
      status = d.status;
      total_bytes = d.total_bytes;
      downloaded_bytes = d.downloaded_bytes;
      speed_bps = speed;
      eta_seconds = eta speed (remaining_bytes d.total_bytes d.downloaded_bytes);
      error = d.error;
      seasons = d.seasons;
      file_count = length d.files;
      completed_file_count = count (λ f. is_completed_file f.status) d.files;
      requested_by = user;
      created_at = d.created_at;
      started_at = d.started_at;
      finished_at = d.finished_at;
      files = map to_download_file_dto d.files;
    }
