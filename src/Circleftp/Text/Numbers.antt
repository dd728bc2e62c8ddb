-- ===== src/Circleftp/Text/Numbers.antt =====
-- The numbers that circleftp/text.ts reads out of names: years, seasons and episodes; and the test
-- `HAS_EPISODE_MARKER` of circleftp/plan.ts. An absent value is read as the empty text, as
-- `String(value ?? '')` does.
use circleftp_jellyfin.Base.{
  ℕ, List, [], ◌∷◌, Option, none, some, Bool, false, ◌&&◌, ◌||◌, if◌then◌else◌, ◌==◌, is_some,
  get_or_else, take,
}
use circleftp_jellyfin.Base.Text.{Text, codes, is_space}
use circleftp_jellyfin.Circleftp.Text.Patterns.{
  is_digit, literal, skip, number_below, short_run, first_at_word, ends_word,
}

-- `/(?:19|20)\d{2}/` here
abbrev pub is_year : Text → Bool
is_year (a ∷ b ∷ c ∷ d ∷ s) =
    ((a == b'1' && b == b'9') || (a == b'2' && b == b'0')) && is_digit c && is_digit d
is_year _ = false

unfoldable pub first_year : Text → Option Text
first_year [] = none
first_year (c ∷ s) =
    let later = first_year s in if is_year (c ∷ s) then some (take 4 (c ∷ s)) else later

-- `/s(?:eason)?\s*0*(\d{1,3})\b/i` here
unfoldable pub explicit_season : Text → Option ℕ
unfolding literal skip number_below is_space
explicit_season s = elim (literal (codes "s") s) [
  | none ↦ none
  | some t ↦ number_below 1000 (skip is_space (get_or_else (literal (codes "eason") t) t))
]

-- `/(\d{1,3})\b/` here
unfoldable pub bare_number : Text → Option ℕ
unfolding number_below short_run
bare_number s = if is_some (short_run 3 s) then number_below 1000 s else none

unfoldable pub parse_season_number : Text → Option ℕ
unfolding first_at_word explicit_season bare_number
parse_season_number name = elim (first_at_word explicit_season false name) [
  | some n ↦ some n
  | none ↦ first_at_word bare_number false name
]

-- A word, a class with `*`, and `0*(\d{1,4})\b`.
unfoldable pub labelled : Text → (ℕ → Bool) → Text → Option ℕ
unfolding literal skip number_below
labelled word class s = elim (literal word s) [
  | none ↦ none
  | some t ↦ number_below 10000 (skip class t)
]

abbrev pub no_class : ℕ → Bool
no_class c = false

-- `[:\s#-]` and `[:\s.#-]`
abbrev pub is_separator : ℕ → Bool
is_separator c = c == b':' || is_space c || c == b'#' || c == b'-'

abbrev pub is_separator_or_dot : ℕ → Bool
is_separator_or_dot c = is_separator c || c == b'.'

-- `/s\d{1,3}\s*e0*(\d{1,4})\b/i` here
unfoldable pub season_and_episode : Text → Option ℕ
unfolding literal short_run skip labelled is_space
season_and_episode s = elim (literal (codes "s") s) [
  | none ↦ none
  | some t ↦ elim (short_run 3 t) [
    | none ↦ none
    | some u ↦ labelled (codes "e") no_class (skip is_space u)
  ]
]

-- The first of the patterns that fits anywhere.
unfoldable pub first_pattern : List (Text → Option ℕ) → Text → ℕ → ℕ
unfolding first_at_word
first_pattern [] title fallback = fallback
first_pattern (p ∷ ps) title fallback = elim (first_at_word p false title) [
  | none ↦ first_pattern ps title fallback
  | some n ↦ n
]

unfoldable pub parse_episode_number : Text → ℕ → ℕ
unfolding first_pattern labelled season_and_episode is_space
parse_episode_number title fallback =
    first_pattern
      (labelled (codes "episode") is_separator
        ∷ labelled (codes "ep") is_separator_or_dot
        ∷ season_and_episode
        ∷ labelled (codes "e") no_class
        ∷ [])
      title fallback

-- `/s\d{1,3}\s*[._ -]?e\d{1,4}\b/i` here
abbrev pub is_joint : ℕ → Bool
is_joint c = c == b'.' || c == b'_' || c == 32 || c == b'-'

abbrev pub drop_joint : Text → Text
drop_joint [] = []
drop_joint (c ∷ s) = if is_joint c then s else c ∷ s

unfoldable pub episode_marker : Text → Option (Unit {0})
unfolding literal short_run skip is_space
episode_marker s = elim (literal (codes "s") s) [
  | none ↦ none
  | some t ↦ elim (short_run 3 t) [
    | none ↦ none
    | some u ↦ elim (literal (codes "e") (drop_joint (skip is_space u))) [
      | none ↦ none
      | some v ↦ elim (short_run 4 v) [
        | none ↦ none
        | some w ↦ if ends_word w then some tt else none
      ]
    ]
  ]
]

unfoldable pub has_episode_marker : Text → Bool
unfolding first_at_word episode_marker
has_episode_marker name = is_some (first_at_word episode_marker false name)
