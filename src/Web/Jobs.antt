-- ===== src/Web/Jobs.antt =====
-- packages/web/src/pages/Downloads.tsx: the filter of the page and the buttons on a job. The list
-- comes from Web.Live; a DTO shows the row. The confirmation of a deletion is taken as given.
pub mod Laws
mod Tests
use circleftp_jellyfin.Base.{ℕ, List, Bool, true, false, ◌&&◌, not, filter}
use circleftp_jellyfin.Downloads.Model.{Download, Downloads, DownloadStatus}
use circleftp_jellyfin.Downloads.Listing.{ListFilter, every, active, done, is_terminal_status}
use circleftp_jellyfin.Routes.Downloads.{Request, cancel, retry, delete}

unfoldable pub is_visible : ListFilter → Download → Bool
is_visible active d = not (is_terminal_status d.status)
is_visible done d = is_terminal_status d.status
is_visible every d = true

unfoldable pub visible : ListFilter → Downloads → Downloads
unfolding is_visible
visible f ds = filter (is_visible f) ds

abbrev pub is_completed : DownloadStatus → Bool
is_completed DownloadStatus.completed = true
is_completed _ = false

-- A button that may be shown, with the request that it sends.
pub record Button : Type 0 where
  pub is_shown : Bool
  pub request : Request

unfoldable pub cancel_button : Download → Button
cancel_button d = record { is_shown = not (is_terminal_status d.status); request = cancel d.id }

unfoldable pub retry_button : Download → Button
retry_button d = record {
  is_shown = is_terminal_status d.status && not (is_completed d.status);
  request = retry d.id;
}

unfoldable pub delete_button : Download → Button
delete_button d = record { is_shown = is_terminal_status d.status; request = delete d.id true }
