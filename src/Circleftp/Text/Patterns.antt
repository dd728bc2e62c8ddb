-- ===== src/Circleftp/Text/Patterns.antt =====
-- The parts from which the regular expressions of circleftp/text.ts and circleftp/plan.ts are made,
-- as functions that consume the front of a text. Each keeps what JavaScript's backtracking finds:
-- the runs of digits in these patterns end at `\b` or before a letter, so that a run is taken whole
-- or not at all.
use circleftp_jellyfin.Base.{
  ℕ, ◌+◌, ◌-◌, ◌*◌, [], ◌∷◌, Option, none, some, Bool, true, ◌&&◌, ◌||◌, not, if◌then◌else◌, ltb,
  leb, ◌==◌,
}
use circleftp_jellyfin.Base.Text.{Text, to_lower_char}

abbrev pub is_digit : ℕ → Bool
is_digit c = leb b'0' c && leb c b'9'

-- `\w`
abbrev pub is_word : ℕ → Bool
is_word c = is_digit c || (leb b'a' c && leb c b'z') || (leb b'A' c && leb c b'Z') || c == b'_'

-- The text does not go on with a word: `\b` behind a word character.
abbrev pub ends_word : Text → Bool
ends_word [] = true
ends_word (c ∷ s) = not (is_word c)

-- A literal, with the flag `i`; the literals are in lower case.
unfoldable pub literal : Text → Text → Option Text
literal [] s = some s
literal (d ∷ p) [] = none
literal (d ∷ p) (c ∷ s) = if to_lower_char c == d then literal p s else none

-- A class with `*`.
unfoldable pub skip : (ℕ → Bool) → Text → Text
skip p [] = []
skip p (c ∷ s) = if p c then skip p s else c ∷ s

-- `(\d+)`, greedily: the value, the number of digits and the rest.
pub record Run : Type 0 where
  pub value : ℕ
  pub digits : ℕ
  pub rest : Text

unfoldable pub digit_run : ℕ → ℕ → Text → Run
digit_run value digits [] = record { value = value; digits = digits; rest = [] }
digit_run value digits (c ∷ s) =
    let more = digit_run (value * 10 + (c - b'0')) (digits + 1) s in
    if is_digit c then more else record { value = value; digits = digits; rest = c ∷ s }

-- `0*(\d{1,k})\b`, where `limit` is 10 ^ k: a run of digits that ends a word and, without its
-- leading zeros, has at most k digits.
unfoldable pub number_below : ℕ → Text → Option ℕ
unfolding digit_run
number_below limit s =
    let r = digit_run 0 0 s in
    if ltb 0 r.digits && ends_word r.rest && ltb r.value limit then some r.value else none

-- `\d{1,k}`, as a whole run: the rest.
unfoldable pub short_run : ℕ → Text → Option Text
unfolding digit_run
short_run k s =
    let r = digit_run 0 0 s in if ltb 0 r.digits && leb r.digits k then some r.rest else none

-- `\b` and a pattern that begins with a word character, at the first place where it fits; the flag
-- says that the character before is a word character.
unfoldable pub first_at_word {ℓ} : {A : Type ℓ} → (Text → Option A) → Bool → Text → Option A
first_at_word p within [] = none
first_at_word p within (c ∷ s) =
    let later = first_at_word p (is_word c) s in
    if within then later else elim (p (c ∷ s)) [ none ↦ later | some a ↦ some a ]
