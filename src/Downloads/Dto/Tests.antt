-- ===== src/Downloads/Dto/Tests.antt =====
-- The theorem on the DTO of a download at a transfer with two samples.
use circleftp_jellyfin.Base.{ℕ, ◌-◌, ◌≤◌, ◌≡◌, refl, [], ◌∷◌, none, some, true, false, arith}
use circleftp_jellyfin.Base.Text.{codes}
use circleftp_jellyfin.Downloads.Model.{Download, DownloadStatus, is_running}
use circleftp_jellyfin.Downloads.Speed.{record_sample}
use circleftp_jellyfin.Downloads.Speed.Laws.{Points, record_all, AllWithin}
use circleftp_jellyfin.Downloads.Dto.{to_download_dto}
use circleftp_jellyfin.Downloads.Dto.Laws.{IsNear, to_download_dto-IsNear}

abbrev film : Download
film = record {
  id = 3;
  post_id = 9;
  title = codes "Film";
  folder_name = codes "Film";
  status = DownloadStatus.running;
  total_bytes = some 10000;
  downloaded_bytes = 4000;
  error = none;
  seasons = [];
  cancel_requested = false;
  user_id = none;
  files = [];
  created_at = 10;
  started_at = some 20;
  finished_at = none;
}

abbrev points : Points
points = (3, 0, 0) ∷ (3, 4000, 2000) ∷ []

points-AllWithin : AllWithin 2000 points []
unfolding record_sample
points-AllWithin = ((λ s e. absurd (cc)), ((λ s e. ground (arith, e)), tt))

estimate : (to_download_dto none 2500 (record_all points []) film).eta_seconds ≡ some 3
unfolding to_download_dto record_all record_sample
estimate = refl

to_download_dto-IsNear_example :
    (is_running film.status ≡ true)
    × ((v total : ℕ) × (film.total_bytes ≡ some total)
        × ((to_download_dto none 2500 (record_all points []) film).speed_bps ≡ some v)
        × (v ≤ 2000)
        × IsNear 3 v (total - film.downloaded_bytes))
to_download_dto-IsNear_example =
    to_download_dto-IsNear 2000 points none 2500 film 3 points-AllWithin estimate
