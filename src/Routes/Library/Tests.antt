-- ===== src/Routes/Library/Tests.antt =====
-- The theorem on the page of a title in routes/library.ts at a film that the upstream API has.
use circleftp_jellyfin.Base.{ℕ, ◌+◌, ◌≡◌, refl, [], ◌∷◌, Option, none, some, false}
use circleftp_jellyfin.Base.Text.{Text, codes}
use circleftp_jellyfin.Base.Result.{ok}
use circleftp_jellyfin.Circleftp.Types.{RawPost, text}
use circleftp_jellyfin.Circleftp.Client.{fetched}
use circleftp_jellyfin.Circleftp.Text.Names.{Platform}
use circleftp_jellyfin.Circleftp.Plan.Build.{describe_post}
use circleftp_jellyfin.Circleftp.Search.{kind_of}
use circleftp_jellyfin.Downloads.Service.{State, Keys, CreateOptions, create_download}
use circleftp_jellyfin.Routes.Downloads.{planned}
use circleftp_jellyfin.Routes.Library.{TitleDetailDto, title_detail}
use circleftp_jellyfin.Routes.Library.Laws.{Fits, title_detail-Fits}

abbrev platform : Platform
platform = record { pathname = λ url. some url; decode_component = λ t. some t; number = λ t. none }

abbrev film : RawPost
film = record {
  id = some 5;
  title = some (codes "Film");
  name = none;
  type = some (codes "singleVideo");
  year = none;
  quality = none;
  watch_time = none;
  meta_data = none;
  image = none;
  image_sm = none;
  categories = none;
  content = text (codes "http://host/film.mkv");
}

abbrev options : CreateOptions
options = record { post_id = 5; seasons = []; user_id = 1 }

abbrev keys : Keys
keys = record { download = 4; file = λ i. 20 + i }

abbrev empty : State
empty = record { downloads = []; disk = λ _. none; events = [] }

abbrev no_probe : Option (Text → Option ℕ)
no_probe = none

abbrev page : TitleDetailDto
page = record {
  post_id = 5;
  description = describe_post film;
  kind = kind_of film;
  type = codes "singleVideo";
  category = [];
  poster_url = none;
  folder_name = codes "Film";
  seasons = [];
  files =
      record {
        rel_path = codes "film.mkv";
        label = codes "Film";
        season = none;
        episode = none;
        size = none;
      }
      ∷ [];
  total_size = none;
  already_queued = false;
  active_download_id = none;
}

page_lem : title_detail platform (λ t. t) 5 [] no_probe (fetched film) [] ≡ ok page
unfolding title_detail circleftp_jellyfin.Circleftp.Text.is_illegal
    circleftp_jellyfin.Circleftp.Plan.deduplicate_from circleftp_jellyfin.Circleftp.Plan.seen_count
page_lem = refl

Fits-film :
    Fits page empty (create_download options (planned platform [] (fetched film)) keys 10 empty)
Fits-film = title_detail-Fits platform (λ t. t) options no_probe film keys 10 empty page page_lem
