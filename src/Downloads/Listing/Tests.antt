-- ===== src/Downloads/Listing/Tests.antt =====
-- `listDownloads` at a table of three downloads.
use circleftp_jellyfin.Base.{
  ℕ, ◌+◌, ◌≡◌, refl, [], ◌∷◌, Option, none, some, Bool, false, map, filter, count, All,
}
use circleftp_jellyfin.Downloads.Model.{Download, Downloads, DownloadStatus}
use circleftp_jellyfin.Downloads.Listing.{every, done, passes, list_downloads}
use circleftp_jellyfin.Downloads.Listing.Cut.{FinishedBy, cut_off, list_downloads-cut}

abbrev job : ℕ → DownloadStatus → Option ℕ → Download
job id status finished_at = record {
  id = id;
  post_id = id;
  title = [];
  folder_name = [];
  status = status;
  total_bytes = none;
  downloaded_bytes = 0;
  error = none;
  seasons = [];
  cancel_requested = false;
  user_id = none;
  files = [];
  created_at = id;
  started_at = none;
  finished_at = finished_at;
}

abbrev jobs : Downloads
jobs =
    job 1 DownloadStatus.completed (some 10)
    ∷ job 2 DownloadStatus.completed (some 20)
    ∷ job 3 DownloadStatus.running none
    ∷ []

-- The download that finished last is cut off.
newest_missing : map (λ d. d.id) (list_downloads every 2 jobs) ≡ 3 ∷ 1 ∷ []
unfolding list_downloads
newest_missing = refl

list_downloads-cut_example :
    All (λ a. All (FinishedBy a) (cut_off done 1 jobs)) (list_downloads done 1 jobs)
    × ((p : Download → Bool)
        → count p (list_downloads done 1 jobs) + count p (cut_off done 1 jobs)
          ≡ count p (filter (passes done) jobs))
list_downloads-cut_example = list_downloads-cut done 1 jobs
