-- ===== src/Web/Title/Tests.antt =====
-- The theorems on the page of a title at a series of one season, which is ticked.
use circleftp_jellyfin.Base.{
  ℕ, ◌+◌, ◌≡◌, ◌++◌, List, [], ◌∷◌, Option, none, some, false, arith, if◌then◌else◌, any, not,
}
use circleftp_jellyfin.Base.Text.{Text, codes, text_eq, trim, is_space}
use circleftp_jellyfin.Circleftp.Types.{RawPost, RawEntry, RawEpisode, entries}
use circleftp_jellyfin.Circleftp.Text.Names.{Platform}
use circleftp_jellyfin.Circleftp.Plan.{DownloadPlan}
use circleftp_jellyfin.Circleftp.Plan.Build.{build_plan, describe_post}
use circleftp_jellyfin.Circleftp.Search.{kind_of, main_category}
use circleftp_jellyfin.Downloads.Service.{State, Keys, CreateOptions}
use circleftp_jellyfin.Routes.Library.{TitleDetailDto, sized}
use circleftp_jellyfin.Web.Title.{previewed, toggle_season}
use circleftp_jellyfin.Web.Title.Laws.{previewed-comma, toggle_season_lem}

abbrev platform : Platform
platform = record { pathname = λ url. some url; decode_component = λ t. some t; number = λ t. none }

abbrev episode : RawEpisode
episode = record { link = some (codes "http://host/a.mkv"); title = some (codes "Episode 3") }

abbrev season : RawEntry
season = record {
  season_name = some (codes "Season 1");
  episodes = some (some episode ∷ []);
  link = none;
  title = none;
}

abbrev show : RawPost
show = record {
  id = some 7;
  title = some (codes "Show (2020)");
  name = some (codes "Show");
  type = some (codes "series");
  year = none;
  quality = none;
  watch_time = none;
  meta_data = none;
  image = none;
  image_sm = none;
  categories = none;
  content = entries (some season ∷ none ∷ []);
}

abbrev ticked : List Text
ticked = codes "Season 1" ∷ []

abbrev options : CreateOptions
options = record { post_id = 7; seasons = ticked; user_id = 1 }

abbrev keys : Keys
keys = record { download = 4; file = λ i. 20 + i }

abbrev empty : State
empty = record { downloads = []; disk = λ _. none; events = [] }

abbrev no_probe : Option (Text → Option ℕ)
no_probe = none

abbrev plan : DownloadPlan
plan = build_plan platform show (previewed ticked)

abbrev page : TitleDetailDto
page = record {
  post_id = 7;
  description = describe_post show;
  kind = kind_of show;
  type = codes "series";
  category = main_category show;
  poster_url = none;
  folder_name = plan.folder;
  seasons = plan.seasons;
  files = sized no_probe plan.files;
  total_size = none;
  already_queued = false;
  active_download_id = none;
}

comma_run :
    previewed ((codes "1" ++ b',' ∷ codes "2") ∷ []) ≡ trim (codes "1") ∷ trim (codes "2") ∷ []
unfolding is_space
comma_run = previewed-comma (codes "1") (codes "2") (omega arith) (omega arith) (λ e. cc) (λ e. cc)

toggled_twice : any (text_eq (codes "2")) (toggle_season (codes "2") ticked) ≡ (
    if text_eq (codes "2") (codes "2")
    then not (any (text_eq (codes "2")) ticked)
    else any (text_eq (codes "2")) ticked)
toggled_twice = toggle_season_lem (codes "2") (codes "2") ticked
