-- ===== src/Circleftp/Plan/Build.antt =====
-- `buildPlan` and `describePost` of circleftp/plan.ts.
pub mod Named
pub mod Laws
mod Tests
use circleftp_jellyfin.Base.{
  ℕ, zero, suc, ◌+◌, List, [], ◌∷◌, ◌++◌, Option, none, some, Bool, true, false, ◌&&◌, ◌||◌, not,
  if◌then◌else◌, ltb, ◌==◌, length, get_or_else, is_some, map,
}
use circleftp_jellyfin.Base.Text.{Text, codes, text_eq, trim, starts_with}
use circleftp_jellyfin.Circleftp.Types.{
  RawEpisode, RawEntry, RawContent, nothing, text, entries, RawPost,
}
use circleftp_jellyfin.Circleftp.Text.{sanitize, or_text}
use circleftp_jellyfin.Circleftp.Text.Numbers.{
  first_year, parse_season_number, parse_episode_number, has_episode_marker,
}
use circleftp_jellyfin.Circleftp.Text.Names.{
  Platform, filename_from_url, folder_title, season_matches, or_else, text_of,
}
use circleftp_jellyfin.Circleftp.Plan.{
  PlannedFile, SeasonSummary, DownloadPlan, decimal, deduplicate_paths,
}

-- `String(n).padStart(2, '0')`
unfoldable pub pad2 : ℕ → Text
unfolding decimal
pad2 n = if ltb n 10 then b'0' ∷ decimal n else decimal n

-- The elements of a list that are objects with a link; an empty link is falsy.
unfoldable pub linked : List (Option RawEpisode) → List (Text × Text)
linked [] = []
linked (none ∷ es) = linked es
linked (some e ∷ es) =
    let rest = linked es in
    if text_eq (text_of e.link) [] then rest else (text_of e.link, text_of e.title) ∷ rest

unfoldable pub season_dir : Option ℕ → Text → Text
unfolding pad2 sanitize
season_dir none season_name = sanitize season_name (codes "Season 01")
season_dir (some n) season_name = codes "Season " ++ pad2 n

-- The prefix with the marker, if the file has none and the season has a number.
unfoldable pub mark_episode : Text → Option ℕ → ℕ → Text → Text
unfolding has_episode_marker pad2
mark_episode show none episode filename = filename
mark_episode show (some n) episode filename =
    if has_episode_marker filename
    then filename
    else show
      ++ (codes " S" ++ (pad2 n ++ (codes "E" ++ (pad2 episode ++ (codes " - " ++ filename)))))

-- One episode of a season, at its index among those that have a link.
unfoldable pub episode_file : Platform → Text → Text → Option ℕ → ℕ → Text × Text → PlannedFile
unfolding season_dir mark_episode parse_episode_number filename_from_url decimal
episode_file p show season_name season_number index (link, title) =
    let url = trim link in
    let label = trim title in
    let dir = season_dir season_number season_name in
    let episode = parse_episode_number label (index + 1) in
    let filename =
      mark_episode show season_number episode
        (filename_from_url p url (or_text label (codes "episode " ++ decimal (index + 1)))) in
    record {
      url = url;
      rel_path = dir ++ (codes "/" ++ filename);
      label = or_text label filename;
      season = some (or_text season_name dir);
      episode = some episode;
    }

unfoldable pub episode_files :
    Platform → Text → Text → Option ℕ → ℕ → List (Text × Text) → List PlannedFile
unfolding episode_file
episode_files p show season_name season_number index [] = []
episode_files p show season_name season_number index (e ∷ es) =
    episode_file p show season_name season_number index e
    ∷ episode_files p show season_name season_number (index + 1) es

-- What one season adds: its summary, and its files if it is wanted.
pub record Season : Type 0 where
  pub summary : SeasonSummary
  pub files : List PlannedFile

unfoldable pub plan_season : Platform → Text → List Text → ℕ → RawEntry → Season
unfolding linked episode_files parse_season_number season_matches decimal
plan_season p show wanted index season =
    let name = trim (text_of season.season_name) in
    let number = parse_season_number name in
    let episodes = linked (get_or_else season.episodes []) in
    record {
      summary = record {
        name = or_text name (codes "Season " ++ decimal (index + 1));
        number = number;
        episode_count = length episodes;
      };
      files =
          if season_matches p name number wanted
          then episode_files p show name number 0 episodes
          else [];
    }

-- The loop over the seasons; the index counts those that are summarised.
unfoldable pub plan_seasons : Platform → Text → List Text → ℕ → List (Option RawEntry) → List Season
unfolding plan_season
plan_seasons p show wanted index [] = []
plan_seasons p show wanted index (none ∷ es) = plan_seasons p show wanted index es
plan_seasons p show wanted index (some e ∷ es) =
    plan_season p show wanted index e ∷ plan_seasons p show wanted (index + 1) es

unfoldable pub season_files : List Season → List PlannedFile
season_files [] = []
season_files (s ∷ ss) = s.files ++ season_files ss

abbrev pub single_file : Text → Text → Text → PlannedFile
single_file url rel_path label = record {
  url = url;
  rel_path = rel_path;
  label = label;
  season = none;
  episode = none;
}

-- The branch of the parts; the index counts every element.
unfoldable pub part_files : Platform → ℕ → List (Option RawEntry) → List PlannedFile
unfolding filename_from_url decimal
part_files p index [] = []
part_files p index (none ∷ es) = part_files p (index + 1) es
part_files p index (some e ∷ es) =
    let rest = part_files p (index + 1) es in
    let url = trim (text_of e.link) in
    let label = get_or_else e.title (codes "part " ++ decimal (index + 1)) in
    if text_eq (text_of e.link) []
    then rest
    else single_file url (filename_from_url p url label) label ∷ rest

abbrev pub entries_of : RawContent → List (Option RawEntry)
entries_of nothing = []
entries_of (text s) = []
entries_of (entries es) = es

-- The branch of one file, `typeof post.content === 'string' && post.content.trim()`.
unfoldable pub whole_file : Platform → Text → Text → RawContent → List PlannedFile
unfolding filename_from_url
whole_file p folder label nothing = []
whole_file p folder label (entries es) = []
whole_file p folder label (text s) =
    if text_eq (trim s) []
    then []
    else single_file (trim s) (filename_from_url p (trim s) folder) label ∷ []

-- The branch of an unknown type, `post.content.startsWith('http')`.
unfoldable pub generous_file : Platform → Text → RawContent → List PlannedFile
unfolding filename_from_url
generous_file p folder nothing = []
generous_file p folder (entries es) = []
generous_file p folder (text s) =
    if starts_with s (codes "http")
    then single_file (trim s) (filename_from_url p (trim s) folder) folder ∷ []
    else []

pub data PostType : Type 0 where
  series single multi other : PostType

unfoldable pub post_type : Text → PostType
post_type t =
    if text_eq t (codes "series")
    then series
    else if text_eq t (codes "singleVideo") || text_eq t (codes "singleFile")
    then single
    else if text_eq t (codes "multiVideo") || text_eq t (codes "multiFile")
    then multi
    else other

-- `post-${String(post.id ?? 'unknown')}` without its prefix.
abbrev pub id_text : Option ℕ → Text
id_text none = codes "unknown"
id_text (some n) = decimal n

-- The seasons and the files as they are found.
unfoldable pub collect : Platform → RawPost → List Text → Text → List Season × List PlannedFile
unfolding plan_seasons season_files whole_file part_files generous_file sanitize post_type
collect p post wanted folder = elim (post_type (text_of post.type)) [
  | series ↦
      let show = sanitize (text_of (or_else post.name post.title)) (codes "Show") in
      let seasons = plan_seasons p show wanted 0 (entries_of post.content) in
      (seasons, season_files seasons)
  | single ↦ ([], whole_file p folder (get_or_else post.title folder) post.content)
  | multi ↦ ([], part_files p 0 (entries_of post.content))
  | other ↦ ([], generous_file p folder post.content)
]

unfoldable pub build_plan : Platform → RawPost → List Text → DownloadPlan
unfolding collect folder_title deduplicate_paths
build_plan p post wanted =
    let folder = folder_title post.name post.title (id_text post.id) post.year in
    let (seasons, files) = collect p post wanted folder in
    record {
      folder = folder;
      files = deduplicate_paths files;
      seasons = map (λ s. s.summary) seasons;
      type = text_of post.type;
    }

-- A truthy text.
abbrev pub truthy : Option Text → Option Text
truthy none = none
truthy (some []) = none
truthy (some (c ∷ s)) = some (c ∷ s)

pub record Description : Type 0 where
  pub name : Text
  pub title : Text
  pub year : Option Text
  pub quality : Text
  pub watch_time : Option Text
  pub description : Option Text

unfoldable pub describe_post : RawPost → Description
unfolding first_year
describe_post post = record {
  name = get_or_else (or_else post.name post.title) (codes "Untitled");
  title = get_or_else (or_else post.title post.name) (codes "Untitled");
  year = elim (truthy post.year) [ some y ↦ some y | none ↦ first_year (text_of post.title) ];
  quality = text_of post.quality;
  watch_time = truthy post.watch_time;
  description = truthy post.meta_data;
}
