-- ===== src/Circleftp/Plan/Build/Laws.antt =====
-- What `buildPlan` of circleftp/plan.ts promises to `resolveDestination` and to the title page.
use circleftp_jellyfin.Base.{
  ℕ, ◌+◌, ◌≡◌, refl, ap, ◌∙◌, List, [], ◌∷◌, ◌++◌, Option, none, some, Bool, true, false, ◌||◌,
  arith, if◌then◌else◌, get_or_else, any, filter, map, take, drop, All, Bool-cases, Option-cases,
  inl, inr,
}
use circleftp_jellyfin.Base.Text.{
  Text, codes, text_eq, text_eq_iff, is_space, trim, trim_start_by, trim_end_by, cons_unless,
}
use circleftp_jellyfin.Base.Result.{ok}
use circleftp_jellyfin.Circleftp.Types.{RawEntry, RawPost}
use circleftp_jellyfin.Circleftp.Text.{sanitize}
use circleftp_jellyfin.Circleftp.Text.Names.{Platform, folder_title, or_else, text_of}
use circleftp_jellyfin.Circleftp.Plan.{
  decimal, PlannedFile, SeasonSummary, last_index_of, has_extension, suffix_path, Seen, seen_count,
  seen_set, deduplicate_from, deduplicate_paths,
}
use circleftp_jellyfin.Circleftp.Plan.Build.{
  Season, plan_season, plan_seasons, season_files, part_files, whole_file, generous_file, PostType,
  series, single, multi, other, post_type, collect, build_plan, entries_of, id_text,
}
use circleftp_jellyfin.Downloads.Paths.{
  split_slash, cons_head, is_usable, safe_segments, is_empty, render, resolve_destination,
}
use circleftp_jellyfin.Downloads.Paths.Laws.{IsSegment, resolve_destination_below}
use circleftp_jellyfin.Circleftp.Plan.Build.Named.{
  names, HasName, any-append, append-HasName, Named, collect-Named,
}

prepend-HasName : (s t : Text) → HasName s → HasName (s ++ t)
prepend-HasName s t h = record { named = ground (arith, any-append s t, h.named) }

marker-HasName : (n : ℕ) → HasName (codes " (" ++ (decimal n ++ codes ")"))
unfolding is_space
marker-HasName n = record { named = refl }

-- A suffixed path has at least the suffix.
suffix_path-HasName : (path : Text) (n : ℕ) → HasName (suffix_path path n)
unfolding suffix_path
suffix_path-HasName path n = with_dot (last_index_of b'.' path)
  where
    marker : Text
    marker = codes " (" ++ (decimal n ++ codes ")")

    with_dot :
        (dot : Option ℕ)
        → HasName (
            if has_extension dot (last_index_of b'/' path)
            then elim dot [
              | none ↦ path ++ marker
              | some i ↦ take i path ++ (marker ++ drop i path)
            ]
            else path ++ marker)
    with_dot none = append-HasName path marker (marker-HasName n)
    with_dot (some i) = elim (Bool-cases (has_extension (some i) (last_index_of b'/' path))) [
      | inl e ↦ rw e (
          append-HasName (take i path) (marker ++ drop i path)
            (prepend-HasName marker (drop i path) (marker-HasName n)))
      | inr e ↦ rw e (append-HasName path marker (marker-HasName n))
    ]

deduplicate_from-Named :
    (seen : Seen) (fs : List PlannedFile) → All Named fs → All Named (deduplicate_from seen fs)
unfolding deduplicate_from
deduplicate_from-Named seen [] h = tt
deduplicate_from-Named seen (f ∷ fs) (k, h) = elim (Option-cases (seen_count f.rel_path seen)) [
  | inl e ↦ rw (deduplicate_from, e) (k, deduplicate_from-Named (seen_set f.rel_path 1 seen) fs h)
  | inr (n, e) ↦
      rw (deduplicate_from, e)
        (
          suffix_path-HasName f.rel_path (n + 1),
          deduplicate_from-Named (seen_set f.rel_path (n + 1) seen) fs h,
        )
]

-- Some segment holds the character, and trimming keeps it.
trim_start-names : (s : Text) → any names (trim_start_by is_space s) ≡ any names s
trim_start-names [] = refl
trim_start-names (c ∷ s) = ground (arith, trim_start-names s)

cons_unless-names :
    (b : Bool) (c : ℕ) (s : Text)
    → is_space c ≡ b
    → any names (cons_unless b c s) ≡ (names c || any names s)
cons_unless-names true c [] e = ground arith
cons_unless-names true c (d ∷ s) e = refl
cons_unless-names false c s e = refl

trim_end-names : (s : Text) → any names (trim_end_by is_space s) ≡ any names s
trim_end-names [] = refl
trim_end-names (c ∷ s) =
    cons_unless-names (is_space c) c (trim_end_by is_space s) refl
    ∙ ap (λ b. names c || b) (trim_end-names s)

not_text_of_names : (s t : Text) → any names s ≡ true → any names t ≡ false → text_eq s t ≡ false
not_text_of_names s t h e = ground (arith, text_eq_iff s t)

usable_of_names : (s : Text) → any names s ≡ true → is_usable s ≡ true
unfolding is_space
usable_of_names s h =
    rw
      (
        not_text_of_names s [] h refl,
        not_text_of_names s (codes ".") h refl,
        not_text_of_names s (codes "..") h refl,
      )
      refl

-- How many segments are usable.
usable_any :
    (ss : List Text) → any (any names) ss ≡ true → is_empty (filter is_usable (map trim ss)) ≡ false
usable_any [] h = cc
usable_any (s ∷ ss) h = elim (Bool-cases (any names s)) [
  | inl e ↦
      rw
        (usable_of_names (trim s)
          (trim_end-names (trim_start_by is_space s) ∙ trim_start-names s ∙ e))
        refl
  | inr e ↦ elim (Bool-cases (is_usable (trim s))) [
    | inl k ↦ rw k refl
    | inr k ↦ rw k (usable_any ss (rw e at h))
  ]
]

cons_head-names :
    (c : ℕ) (ss : List Text) → any (any names) (cons_head c ss) ≡ (names c || any (any names) ss)
cons_head-names c [] = ground arith
cons_head-names c (s ∷ ss) = ground arith

split-names : (s : Text) → any (any names) (split_slash s) ≡ any names s
unfolding split_slash
split-names [] = refl
split-names (c ∷ s) = ground (arith, split-names s, cons_head-names c (split_slash s))

is_empty-map : (f : Text → Text) (ss : List Text) → is_empty (map f ss) ≡ is_empty ss
is_empty-map f [] = refl
is_empty-map f (s ∷ ss) = refl

safe_segments-nonempty : (path : Text) → HasName path → is_empty (safe_segments path) ≡ false
unfolding safe_segments
safe_segments-nonempty path h =
    is_empty-map _ (filter is_usable (map trim (split_slash path)))
    ∙ usable_any (split_slash path) (split-names path ∙ h.named)

-- The planned file has a place below the media root: its segments, the folder of its plan and the
-- segments of its path.
abbrev pub Lands : List Text → Text → PlannedFile → Type 0
Lands root folder f =
    resolve_destination (render root) folder f.rel_path
    ≡ ok (render (root ++ sanitize folder (codes "untitled") ∷ safe_segments f.rel_path))

module _ (r : Text) (rs : List Text) (plain : All IsSegment (r ∷ rs)) where
  Named-Lands :
      (folder : Text) (fs : List PlannedFile) → All Named fs → All (Lands (r ∷ rs) folder) fs
  Named-Lands folder [] h = tt
  Named-Lands folder (f ∷ fs) (k, h) = (
    resolve_destination_below r rs plain folder f.rel_path
        ∙ rw (safe_segments-nonempty f.rel_path k) refl,
    Named-Lands folder fs h,
  )

  -- At a media root of at least one directory, whatever the upstream API sends and whatever seasons
  -- are wanted, every file of the plan has a place: `resolveDestination` accepts its path, below the
  -- root and the folder of the plan.
  pub build_plan-Lands :
      (p : Platform) (post : RawPost) (wanted : List Text)
      → All (Lands (r ∷ rs) (build_plan p post wanted).folder) (build_plan p post wanted).files
  unfolding build_plan deduplicate_paths
  build_plan-Lands p post wanted =
      Named-Lands _ _ (deduplicate_from-Named [] _ (collect-Named p post wanted _))

plan_seasons-summaries :
    (p : Platform) (show : Text) (wanted others : List Text) (index : ℕ)
    (es : List (Option RawEntry))
    → map (λ s. s.summary) (plan_seasons p show wanted index es)
      ≡ map (λ s. s.summary) (plan_seasons p show others index es)
unfolding plan_seasons plan_season
plan_seasons-summaries p show wanted others index [] = refl
plan_seasons-summaries p show wanted others index (none ∷ es) =
    plan_seasons-summaries p show wanted others index es
plan_seasons-summaries p show wanted others index (some e ∷ es) =
    ap (λ ss. (plan_season p show wanted index e).summary ∷ ss)
      (plan_seasons-summaries p show wanted others (index + 1) es)

abbrev folder_of : RawPost → Text
folder_of post = folder_title post.name post.title (id_text post.id) post.year

-- The seasons that a plan reports are all that the post offers, whatever seasons are wanted.
pub build_plan-seasons :
    (p : Platform) (post : RawPost) (wanted others : List Text)
    → (build_plan p post wanted).seasons ≡ (build_plan p post others).seasons
unfolding build_plan collect
build_plan-seasons p post wanted others = by_type (post_type (text_of post.type))
  where
    summaries : List Text → PostType → List SeasonSummary
    summaries w t =
        map (λ s. s.summary)
          (elim t as (λ _. List Season × List PlannedFile) [
            | series ↦
                let show = sanitize (text_of (or_else post.name post.title)) (codes "Show") in
                let seasons = plan_seasons p show w 0 (entries_of post.content) in
                (seasons, season_files seasons)
            | single ↦ (
              [],
              whole_file p (folder_of post) (get_or_else post.title (folder_of post)) post.content,
            )
            | multi ↦ ([], part_files p 0 (entries_of post.content))
            | other ↦ ([], generous_file p (folder_of post) post.content)
          ]).0

    by_type : (t : PostType) → summaries wanted t ≡ summaries others t
    by_type series = plan_seasons-summaries p _ wanted others 0 (entries_of post.content)
    by_type single = refl
    by_type multi = refl
    by_type other = refl
