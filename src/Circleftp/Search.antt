-- ===== src/Circleftp/Search.antt =====
-- circleftp/search.ts: the ranking of what the upstream API finds. `encodeURIComponent` is a
-- parameter.
pub mod Bands
pub mod Laws
mod Tests
use circleftp_jellyfin.Base.{
  ℕ, zero, suc, ◌+◌, List, [], ◌∷◌, ◌++◌, Option, none, some, Bool, true, false, ◌&&◌, ◌||◌, not,
  map, any, if◌then◌else◌, ltb, leb, ◌==◌, get_or_else, filter, take, length,
}
use circleftp_jellyfin.Base.Text.{Text, codes, text_eq, trim, starts_with, to_lower_char}
use circleftp_jellyfin.Circleftp.Types.{RawCategory, RawEntry, RawPost}
use circleftp_jellyfin.Circleftp.Client.{Answer, fetched, failed, crashed}
use circleftp_jellyfin.Circleftp.Text.Numbers.{first_year}
use circleftp_jellyfin.Circleftp.Text.Names.{normalize_text, or_else, text_of}
use circleftp_jellyfin.Circleftp.Plan.Build.{truthy, entries_of}

pub data TitleKind : Type 0 where
  series movie file : TitleKind

pub data MatchStrength : Type 0 where
  exact prefix contains title weak : MatchStrength

-- `TYPE_TO_KIND`, for texts that name no property of every object.
unfoldable pub kind_of : RawPost → TitleKind
kind_of post =
    let type = text_of post.type in
    if text_eq type (codes "series")
    then series
    else if text_eq type (codes "singleVideo") || text_eq type (codes "multiVideo")
    then movie
    else file

-- The truthy texts.
abbrev pub present : List (Option Text) → List Text
present [] = []
present (o ∷ os) = elim (truthy o) [ none ↦ present os | some s ↦ s ∷ present os ]

abbrev pub category_name : Option RawCategory → Option Text
category_name none = none
category_name (some c) = c.name

abbrev pub is_main : Option RawCategory → Bool
is_main none = false
is_main (some c) = text_eq (text_of c.type) (codes "main")

-- `names[0]`, if there is one.
abbrev pub head_or : List Text → Text → Text
head_or [] other = other
head_or (n ∷ ns) other = n

unfoldable pub main_category : RawPost → Text
main_category post =
    let categories = get_or_else post.categories [] in
    let main =
      filter (λ n. not (text_eq (map to_lower_char n) (codes "featured post")))
        (present (map category_name (filter is_main categories))) in
    head_or main (head_or (present (map category_name categories)) [])

-- `s.includes(part)`
abbrev pub includes : Text → Text → Bool
includes [] part = starts_with [] part
includes (c ∷ s) part = starts_with (c ∷ s) part || includes s part

abbrev pub weak_score : ℕ
weak_score = 4

unfoldable pub score_of : RawPost → Text → ℕ
unfolding normalize_text
score_of post query =
    let name = normalize_text (text_of post.name) in
    if text_eq name query
    then 0
    else if starts_with name query
    then 1
    else if includes name query
    then 2
    else if includes (normalize_text (text_of post.title)) query
    then 3
    else weak_score

-- `MATCH_BY_SCORE[score] ?? 'weak'`
abbrev pub match_by_score : ℕ → MatchStrength
match_by_score zero = exact
match_by_score (suc zero) = prefix
match_by_score (suc (suc zero)) = contains
match_by_score (suc (suc (suc zero))) = title
match_by_score (suc (suc (suc (suc n)))) = weak

pub record SearchResult : Type 0 where
  pub post_id : Option ℕ
  pub name : Text
  pub title : Text
  pub year : Option Text
  pub quality : Text
  pub kind : TitleKind
  pub type : Text
  pub category : Text
  pub watch_time : Option Text
  pub poster_url : Option Text
  pub match : MatchStrength

pub record Scored : Type 0 where
  pub post : RawPost
  pub order : ℕ
  pub score : ℕ

-- `a.score - b.score || a.order - b.order` is negative.
abbrev pub is_before : Scored → Scored → Bool
is_before a b = ltb a.score b.score || (a.score == b.score && ltb a.order b.order)

-- The sort; the orders differ, so that every sort gives the same list.
unfoldable pub insert : Scored → List Scored → List Scored
insert e [] = e ∷ []
insert e (x ∷ xs) = if is_before e x then e ∷ x ∷ xs else x ∷ insert e xs

unfoldable pub sort : List Scored → List Scored
unfolding insert
sort [] = []
sort (e ∷ es) = insert e (sort es)

-- The posts that are objects with an id, of the kind asked for; `none` stands for 'any'.
unfoldable pub candidates : Option TitleKind → List (Option RawPost) → List RawPost
unfolding kind_of
candidates kind [] = []
candidates kind (none ∷ ps) = candidates kind ps
candidates kind (some p ∷ ps) =
    let rest = candidates kind ps in
    if has_id p.id && is_kind kind (kind_of p) then p ∷ rest else rest
  where
    has_id : Option ℕ → Bool
    has_id none = false
    has_id (some n) = true

    is_kind : Option TitleKind → TitleKind → Bool
    is_kind none k = true
    is_kind (some series) series = true
    is_kind (some movie) movie = true
    is_kind (some file) file = true
    is_kind _ _ = false

unfoldable pub scored_from : ℕ → Text → List RawPost → List Scored
unfolding score_of
scored_from order query [] = []
scored_from order query (p ∷ ps) =
    record { post = p; order = order; score = score_of p query } ∷ scored_from (order + 1) query ps

-- `chosen`
unfoldable pub choose : List Scored → List Scored
choose scored =
    let strong = filter (λ e. ltb e.score weak_score) scored in
    if ltb 0 (length strong) then strong else take 5 scored

-- `Math.max(1, options.limit ?? 24)`
abbrev pub limit_of : Option ℕ → ℕ
limit_of none = 24
limit_of (some n) = if leb n 1 then 1 else n

module _ (encode : Text → Text) where
  unfoldable pub poster_path : RawPost → Option Text
  poster_path post = elim (truthy (or_else post.image post.image_sm)) [
    | none ↦ none
    | some filename ↦ some (codes "/api/library/image/" ++ encode filename)
  ]

  unfoldable pub to_search_result : RawPost → MatchStrength → SearchResult
  unfolding first_year kind_of main_category poster_path
  to_search_result post strength = record {
    post_id = post.id;
    name = get_or_else (or_else post.name post.title) (codes "Untitled");
    title = get_or_else (or_else post.title post.name) (codes "Untitled");
    year = elim (truthy post.year) [ some y ↦ some y | none ↦ first_year (text_of post.title) ];
    quality = text_of post.quality;
    kind = kind_of post;
    type = text_of post.type;
    category = main_category post;
    watch_time = truthy post.watch_time;
    poster_url = poster_path post;
    match = strength;
  }

  abbrev pub result_of : Scored → SearchResult
  result_of e = to_search_result e.post (match_by_score e.score)

  -- What follows the request, for a query that has been trimmed.
  unfoldable pub rank :
      Text → Option TitleKind → Option ℕ → List (Option RawPost) → List SearchResult
  unfolding choose sort scored_from candidates normalize_text
  rank query kind limit posts = map result_of (
      take (limit_of limit)
        (choose (sort (scored_from 0 (normalize_text query) (candidates kind posts)))))

  -- `search` is `rawSearch`.
  unfoldable pub search_titles :
      (Text → Answer (List (Option RawPost)))
      → Text
      → Option TitleKind
      → Option ℕ
      → Answer (List SearchResult)
  unfolding rank
  search_titles search query kind limit =
      if text_eq (trim query) [] then fetched [] else elim (search (trim query)) [
        | fetched posts ↦ fetched (rank (trim query) kind limit posts)
        | failed status ↦ failed status
        | crashed ↦ crashed
      ]
