-- ===== src/Circleftp/Text/Names.antt =====
-- The names that circleftp/text.ts makes and compares. `new URL(url).pathname`,
-- `decodeURIComponent` and `Number` are the platform's: each gives `none` where it throws or, for
-- `Number`, gives no natural number.
use circleftp_jellyfin.Base.{
  ℕ, List, [], ◌∷◌, ◌++◌, Option, none, some, Bool, true, false, ◌&&◌, ◌||◌, not, map, any,
  if◌then◌else◌, leb, ◌==◌, get_or_else,
}
use circleftp_jellyfin.Base.Text.{Text, codes, text_eq, trim, to_lower_char}
use circleftp_jellyfin.Circleftp.Text.{sanitize}
use circleftp_jellyfin.Circleftp.Text.Patterns.{is_digit}
use circleftp_jellyfin.Circleftp.Text.Numbers.{first_year, parse_season_number}

pub record Platform : Type 0 where
  pub pathname : Text → Option Text
  pub decode_component : Text → Option Text
  pub number : Text → Option ℕ

-- `path.split('/').pop() ?? ''`; the flag of the recursion is what has been read of the segment.
unfoldable pub last_segment : Text → Text
last_segment [] = []
last_segment (c ∷ s) =
    let later = last_segment s in
    if any (λ d. d == b'/') s then later else if c == b'/' then s else c ∷ s

unfoldable pub filename_from_url : Platform → Text → Text → Text
unfolding last_segment sanitize
filename_from_url p url fallback =
    let last = last_segment (get_or_else (p.pathname url) url) in
    sanitize (get_or_else (p.decode_component last) last) (sanitize fallback (codes "untitled"))

-- `a ?? b`
abbrev pub or_else {ℓ} : {A : Type ℓ} → Option A → Option A → Option A
or_else none b = b
or_else (some a) b = some a

-- `String(o ?? '')`
abbrev pub text_of : Option Text → Text
text_of none = []
text_of (some s) = s

-- `id` is what `String(post.id ?? 'unknown')` gives.
unfoldable pub folder_title : Option Text → Option Text → Text → Option Text → Text
unfolding sanitize first_year
folder_title name title id year =
    let folder =
      sanitize (get_or_else (or_else name title) (codes "post-" ++ id)) (codes "untitled") in
    elim (or_else (first_year (text_of year)) (first_year (text_of title))) [
      | none ↦ folder
      | some y ↦ folder ++ (codes " (" ++ (y ++ codes ")"))
    ]

abbrev pub is_plain : ℕ → Bool
is_plain c = is_digit c || (leb b'a' c && leb c b'z')

-- `.replace(/[^a-z0-9]+/g, ' ')`; the flag says that the character before was replaced.
unfoldable pub squeeze : Bool → Text → Text
squeeze within [] = []
squeeze within (c ∷ s) =
    let rest = squeeze (not (is_plain c)) s in
    if is_plain c then c ∷ rest else if within then rest else 32 ∷ rest

unfoldable pub normalize_text : Text → Text
unfolding squeeze
normalize_text s = trim (squeeze false (map to_lower_char s))

-- `a !== null && b !== null && a === b`
abbrev pub same_number : Option ℕ → Option ℕ → Bool
same_number (some a) (some b) = a == b
same_number _ _ = false

-- Whether one entry of the selection names the season.
unfoldable pub entry_matches : Platform → Text → Option ℕ → Text → Bool
unfolding normalize_text parse_season_number
entry_matches p season_name season_number entry =
    let raw = trim entry in
    let wanted = normalize_text raw in
    not (text_eq raw [])
    && (same_number (p.number raw) season_number
        || (not (text_eq wanted []) && text_eq wanted (normalize_text season_name))
        || same_number (parse_season_number raw) season_number)

unfoldable pub season_matches : Platform → Text → Option ℕ → List Text → Bool
unfolding entry_matches
season_matches p season_name season_number [] = true
season_matches p season_name season_number (w ∷ ws) =
    any (entry_matches p season_name season_number) (w ∷ ws)

-- The keys of `VIDEO_EXTENSIONS`.
abbrev pub video_extensions : List Text
video_extensions =
    codes ".mkv"
    ∷ codes ".mp4"
    ∷ codes ".avi"
    ∷ codes ".m4v"
    ∷ codes ".mov"
    ∷ codes ".wmv"
    ∷ codes ".ts"
    ∷ codes ".webm"
    ∷ codes ".flv"
    ∷ codes ".mpg"
    ∷ codes ".mpeg"
    ∷ []

-- `name.slice(name.lastIndexOf('.'))`, if there is a dot.
unfoldable pub from_last_dot : Text → Option Text
from_last_dot [] = none
from_last_dot (c ∷ s) = elim (from_last_dot s) [
  | some e ↦ some e
  | none ↦ if c == b'.' then some (c ∷ s) else none
]

unfoldable pub is_video_name : Text → Bool
unfolding from_last_dot
is_video_name name = elim (from_last_dot name) [
  | none ↦ false
  | some extension ↦ any (text_eq (map to_lower_char extension)) video_extensions
]
