-- ===== src/Circleftp/Plan/Build/Named.antt =====
-- Every path that `buildPlan` of circleftp/plan.ts collects holds a character that a path keeps.
use circleftp_jellyfin.Base.{
  ℕ, ◌+◌, ◌≡◌, refl, List, [], ◌∷◌, ◌++◌, Option, none, some, Bool, true, false, ◌&&◌, ◌||◌, not,
  arith, if◌then◌else◌, ◌==◌, get_or_else, any, All, All-append, Bool-cases, inl, inr,
}
use circleftp_jellyfin.Base.Text.{Text, codes, text_eq, trim, starts_with}
use circleftp_jellyfin.Circleftp.Types.{RawEntry, RawContent, nothing, text, entries, RawPost}
use circleftp_jellyfin.Circleftp.Text.{sanitize, is_illegal, is_edge}
use circleftp_jellyfin.Circleftp.Text.Laws.{IsComponent, sanitize-IsComponent}
use circleftp_jellyfin.Circleftp.Text.Names.{
  Platform, filename_from_url, or_else, text_of, season_matches,
}
use circleftp_jellyfin.Circleftp.Text.Numbers.{has_episode_marker, parse_season_number}
use circleftp_jellyfin.Circleftp.Plan.{PlannedFile}
use circleftp_jellyfin.Circleftp.Plan.Build.{
  linked, pad2, mark_episode, episode_files, Season, plan_season, plan_seasons, season_files,
  part_files, whole_file, generous_file, PostType, series, single, multi, other, post_type, collect,
  entries_of,
}
use circleftp_jellyfin.Downloads.Paths.Laws.{untitled_IsComponent}

-- A character that no step of `resolveDestination` drops.
abbrev pub names : ℕ → Bool
names c = not (is_edge c) && not (c == b'/')

pub record HasName (t : Text) : Type 0 where
  pub named : any names t ≡ true

pub any-append : (s t : Text) → any names (s ++ t) ≡ (any names s || any names t)
any-append [] t = refl
any-append (c ∷ s) t = ground (arith, any-append s t)

pub append-HasName : (s t : Text) → HasName t → HasName (s ++ t)
append-HasName s t h = record { named = ground (arith, any-append s t, h.named) }

component-HasName : (t : Text) → IsComponent t → HasName t
unfolding is_illegal
component-HasName [] k = absurd (k.nonempty refl)
component-HasName (c ∷ t) k = record { named = ground (arith, k.head, k.legal.0) }

filename-HasName : (p : Platform) (url fallback : Text) → HasName (filename_from_url p url fallback)
unfolding filename_from_url
filename-HasName p url fallback = component-HasName _ (
    sanitize-IsComponent _ _
      (sanitize-IsComponent fallback (codes "untitled") untitled_IsComponent))

abbrev pub Named : PlannedFile → Type 0
Named f = HasName f.rel_path

module _ (p : Platform) where
  mark_episode-HasName :
      (show : Text) (season : Option ℕ) (episode : ℕ) (filename : Text)
      → HasName filename
      → HasName (mark_episode show season episode filename)
  unfolding mark_episode
  mark_episode-HasName show none episode filename h = h
  mark_episode-HasName show (some n) episode filename h =
      elim (Bool-cases (has_episode_marker filename)) [
        | inl e ↦ rw e h
        | inr e ↦ rw e (
            append-HasName show _ (
              append-HasName (codes " S") _ (
                append-HasName (pad2 n) _ (
                  append-HasName (codes "E") _
                    (append-HasName (pad2 episode) _ (append-HasName (codes " - ") _ h))))))
      ]

  episode_files-Named :
      (show name : Text) (number : Option ℕ) (index : ℕ) (es : List (Text × Text))
      → All Named (episode_files p show name number index es)
  unfolding episode_files
  episode_files-Named show name number index [] = tt
  episode_files-Named show name number index ((link, title) ∷ es) = (
    append-HasName _ _ (
        append-HasName (codes "/") _
          (mark_episode-HasName show number _ _ (filename-HasName p _ _))),
    episode_files-Named show name number (index + 1) es,
  )

  plan_season-Named :
      (show : Text) (wanted : List Text) (index : ℕ) (e : RawEntry)
      → All Named (plan_season p show wanted index e).files
  unfolding plan_season
  plan_season-Named show wanted index e =
      let name = trim (text_of e.season_name) in
      let number = parse_season_number name in
      let episodes = linked (get_or_else e.episodes []) in
      unless_unwanted (season_matches p name number wanted)
        (episode_files p show name number 0 episodes)
        (episode_files-Named show name number 0 episodes)
    where
      unless_unwanted :
          (b : Bool) (fs : List PlannedFile) → All Named fs → All Named (if b then fs else [])
      unless_unwanted true fs h = h
      unless_unwanted false fs h = tt

  plan_seasons-Named :
      (show : Text) (wanted : List Text) (index : ℕ) (es : List (Option RawEntry))
      → All Named (season_files (plan_seasons p show wanted index es))
  unfolding plan_seasons season_files
  plan_seasons-Named show wanted index [] = tt
  plan_seasons-Named show wanted index (none ∷ es) = plan_seasons-Named show wanted index es
  plan_seasons-Named show wanted index (some e ∷ es) =
      All-append Named _ _ (plan_season-Named show wanted index e)
        (plan_seasons-Named show wanted (index + 1) es)

  part_files-Named : (index : ℕ) (es : List (Option RawEntry)) → All Named (part_files p index es)
  unfolding part_files
  part_files-Named index [] = tt
  part_files-Named index (none ∷ es) = part_files-Named (index + 1) es
  part_files-Named index (some e ∷ es) = elim (Bool-cases (text_eq (text_of e.link) [])) [
    | inl h ↦ rw h (part_files-Named (index + 1) es)
    | inr h ↦ rw h (filename-HasName p _ _, part_files-Named (index + 1) es)
  ]

  whole_file-Named :
      (folder label : Text) (c : RawContent) → All Named (whole_file p folder label c)
  unfolding whole_file
  whole_file-Named folder label nothing = tt
  whole_file-Named folder label (entries es) = tt
  whole_file-Named folder label (text s) = elim (Bool-cases (text_eq (trim s) [])) [
    | inl h ↦ rw h tt
    | inr h ↦ rw h (filename-HasName p _ _, tt)
  ]

  generous_file-Named : (folder : Text) (c : RawContent) → All Named (generous_file p folder c)
  unfolding generous_file
  generous_file-Named folder nothing = tt
  generous_file-Named folder (entries es) = tt
  generous_file-Named folder (text s) = elim (Bool-cases (starts_with s (codes "http"))) [
    | inl h ↦ rw h (filename-HasName p _ _, tt)
    | inr h ↦ rw h tt
  ]

  pub collect-Named :
      (post : RawPost) (wanted : List Text) (folder : Text)
      → All Named (collect p post wanted folder).1
  unfolding collect
  collect-Named post wanted folder = by_type (post_type (text_of post.type))
    where
      show : Text
      show = sanitize (text_of (or_else post.name post.title)) (codes "Show")

      by_type :
          (t : PostType)
          → All Named
              (elim t as (λ _. List Season × List PlannedFile) [
                | series ↦ (
                  plan_seasons p show wanted 0 (entries_of post.content),
                  season_files (plan_seasons p show wanted 0 (entries_of post.content)),
                )
                | single ↦ ([], whole_file p folder (get_or_else post.title folder) post.content)
                | multi ↦ ([], part_files p 0 (entries_of post.content))
                | other ↦ ([], generous_file p folder post.content)
              ]).1
      by_type series = plan_seasons-Named show wanted 0 (entries_of post.content)
      by_type single = whole_file-Named folder (get_or_else post.title folder) post.content
      by_type multi = part_files-Named 0 (entries_of post.content)
      by_type other = generous_file-Named folder post.content
