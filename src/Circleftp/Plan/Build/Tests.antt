-- ===== src/Circleftp/Plan/Build/Tests.antt =====
-- The parsers of circleftp/text.ts and the plans of circleftp/plan.ts at concrete inputs.
use circleftp_jellyfin.Base.{◌≡◌, arith, refl, [], ◌∷◌, none, some, true, false, map, All}
use circleftp_jellyfin.Base.Text.{codes}
use circleftp_jellyfin.Circleftp.Types.{RawEpisode, RawEntry, entries, RawPost}
use circleftp_jellyfin.Circleftp.Text.Numbers.{
  first_year, parse_season_number, parse_episode_number, has_episode_marker,
}
use circleftp_jellyfin.Circleftp.Text.Names.{Platform, last_segment}
use circleftp_jellyfin.Circleftp.Plan.{deduplicate_from, seen_count, digits_from}
use circleftp_jellyfin.Circleftp.Text.{is_illegal}
use circleftp_jellyfin.Circleftp.Plan.Build.{build_plan}
use circleftp_jellyfin.Circleftp.Plan.Build.Laws.{Lands, build_plan-Lands, build_plan-seasons}
use circleftp_jellyfin.Downloads.Paths.Laws.{IsSegment}

year_found : first_year (codes "The Batman (2022) 1080p") ≡ some (codes "2022")
unfolding first_year
year_found = refl

seasons_read :
    map parse_season_number
      (codes "Season 007" ∷ codes "S03" ∷ codes "Part 4" ∷ codes "2nd Season" ∷ [])
    ≡ some 7 ∷ some 3 ∷ some 4 ∷ none ∷ []
unfolding parse_season_number
seasons_read = refl

episodes_read :
    map
      (λ t. parse_episode_number t 99)
      (codes "Ep. 12" ∷ codes "S01E07" ∷ codes "Episode 5 (E99 encode)" ∷ codes "Finale" ∷ [])
    ≡ 12 ∷ 7 ∷ 5 ∷ 99 ∷ []
unfolding parse_episode_number
episodes_read = refl

markers_found :
    map has_episode_marker (codes "Show s01.e02.mkv" ∷ codes "Show 1x02.mkv" ∷ [])
    ≡ true ∷ false ∷ []
unfolding has_episode_marker
markers_found = refl

segment_last : last_segment (codes "/index2/movie/a.mkv") ≡ codes "a.mkv"
unfolding last_segment
segment_last = refl

-- No percent-escapes, no numbers but the digits.
abbrev platform : Platform
platform = record { pathname = λ url. some url; decode_component = λ t. some t; number = λ t. none }

abbrev episode : RawEpisode
episode = record { link = some (codes "http://host/a.mkv"); title = some (codes "Episode 3") }

abbrev season : RawEntry
season = record {
  season_name = some (codes "Season 1");
  episodes = some (some episode ∷ []);
  link = none;
  title = none;
}

abbrev show : RawPost
show = record {
  id = some 7;
  title = some (codes "Show (2020)");
  name = some (codes "Show");
  type = some (codes "series");
  year = none;
  quality = none;
  watch_time = none;
  meta_data = none;
  image = none;
  image_sm = none;
  categories = none;
  content = entries (some season ∷ none ∷ []);
}

show_planned :
    map (λ f. f.rel_path) (build_plan platform show []).files
    ≡ codes "Season 01/Show S01E03 - a.mkv" ∷ []
unfolding build_plan deduplicate_from seen_count digits_from is_illegal
show_planned = refl

media-IsSegment : IsSegment (codes "media")
media-IsSegment = record {
  nonempty = λ e. cc;
  no_slash = omega arith;
  not_dot = λ e. cc;
  not_dots = λ e. cc;
}

build_plan-Lands_example :
    All
      (Lands (codes "media" ∷ []) (build_plan platform show []).folder)
      (build_plan platform show []).files
build_plan-Lands_example =
    build_plan-Lands (codes "media") [] (media-IsSegment, tt) platform show []

seasons_kept :
    (build_plan platform show (codes "2" ∷ [])).seasons ≡ (build_plan platform show []).seasons
seasons_kept = build_plan-seasons platform show (codes "2" ∷ []) []
