-- ===== src/Routes/Library.antt =====
-- packages/server/src/routes/library.ts: the search and the page of a title. Requests have been
-- parsed; the route of the posters is in Circleftp.Posters. What the upstream API answers, and the
-- size that a probe of each address gives, are arguments.
pub mod Laws
mod Tests
use circleftp_jellyfin.Base.{
  ℕ, List, [], ◌∷◌, ◌++◌, Option, none, some, Bool, true, false, if◌then◌else◌, ◌==◌, leb, map,
  is_some,
}
use circleftp_jellyfin.Base.Text.{Text, codes}
use circleftp_jellyfin.Base.Result.{Result, ok, err, ◌>>=◌, not_found, upstream, internal}
use circleftp_jellyfin.Circleftp.Types.{RawPost}
use circleftp_jellyfin.Circleftp.Client.{Answer, fetched, failed, crashed}
use circleftp_jellyfin.Circleftp.Text.Names.{Platform, text_of}
use circleftp_jellyfin.Circleftp.Plan.{PlannedFile, SeasonSummary}
use circleftp_jellyfin.Circleftp.Plan.Build.{Description, build_plan, describe_post, truthy}
use circleftp_jellyfin.Circleftp.Search.{
  TitleKind, SearchResult, kind_of, main_category, search_titles,
}
use circleftp_jellyfin.Circleftp.Probe.{total_known_size}
use circleftp_jellyfin.Downloads.Model.{Download, Downloads}
use circleftp_jellyfin.Downloads.Service.{is_in_flight}

-- `.catch(rethrowUpstream)`; an error that is not the upstream's is answered with 500.
abbrev pub or_rethrow {ℓ} : {A : Type ℓ} → Answer A → Result A
or_rethrow (fetched a) = ok a
or_rethrow (failed none) = err upstream
or_rethrow (failed (some status)) = if status == 404 then err not_found else err upstream
or_rethrow crashed = err internal

-- GET /library/search, before `enrichSeries` adds the numbers of seasons.
unfoldable pub search :
    (Text → Text)
    → (Text → Answer (List (Option RawPost)))
    → Text
    → Option TitleKind
    → Option ℕ
    → Result (List SearchResult)
unfolding search_titles
search encode raw_search q kind limit = or_rethrow (search_titles encode raw_search q kind limit)

pub record PlannedFileDto : Type 0 where
  pub rel_path : Text
  pub label : Text
  pub season : Option Text
  pub episode : Option ℕ
  pub size : Option ℕ

pub record TitleDetailDto : Type 0 where
  pub post_id : ℕ
  pub description : Description
  pub kind : TitleKind
  pub type : Text
  pub category : Text
  pub poster_url : Option Text
  pub folder_name : Text
  pub seasons : List SeasonSummary
  pub files : List PlannedFileDto
  pub total_size : Option ℕ
  pub already_queued : Bool
  pub active_download_id : Option ℕ

-- `findFirst` of the downloads in flight of a post, the latest first.
abbrev pub later : Download → Option Download → Download
later d none = d
later d (some e) = if leb e.created_at d.created_at then d else e

unfoldable pub latest_in_flight : ℕ → Downloads → Option Download
latest_in_flight post_id [] = none
latest_in_flight post_id (d ∷ ds) =
    let rest = latest_in_flight post_id ds in
    if is_in_flight post_id d then some (later d rest) else rest

-- The files with their sizes; without a probe there are none.
unfoldable pub sized : Option (Text → Option ℕ) → List PlannedFile → List PlannedFileDto
sized sizes [] = []
sized sizes (f ∷ fs) =
    record {
      rel_path = f.rel_path;
      label = f.label;
      season = f.season;
      episode = f.episode;
      size = elim sizes [ none ↦ none | some size ↦ size f.url ];
    }
    ∷ sized sizes fs

-- GET /library/title/:postId; `sizes` is given where a probe is asked for.
unfoldable pub title_detail :
    Platform
    → (Text → Text)
    → ℕ
    → List Text
    → Option (Text → Option ℕ)
    → Answer RawPost
    → Downloads
    → Result TitleDetailDto
unfolding build_plan describe_post kind_of main_category sized total_known_size latest_in_flight
title_detail p encode post_id wanted sizes answer downloads = do
  post ← or_rethrow answer
  let plan = build_plan p post wanted
  let files = sized sizes plan.files
  let active = latest_in_flight post_id downloads
  ok (record {
    post_id = post_id;
    description = describe_post post;
    kind = kind_of post;
    type = text_of post.type;
    category = main_category post;
    poster_url = elim (truthy post.image) [
      | none ↦ none
      | some filename ↦ some (codes "/api/library/image/" ++ encode filename)
    ];
    folder_name = plan.folder;
    seasons = plan.seasons;
    files = files;
    total_size = elim sizes [
      | none ↦ none
      | some size ↦ total_known_size (map (λ f. f.size) files)
    ];
    already_queued = is_some active;
    active_download_id = elim active [ none ↦ none | some d ↦ some d.id ];
  })
