-- ===== src/Downloads/Fetcher/Headers.antt =====
-- `totalFromHeaders` of downloads/fetcher.ts. The numbers are decimal, as HTTP has them; rounding
-- above 2 ^ 53 is not modelled.
use circleftp_jellyfin.Base.{
  ℕ, ◌+◌, ◌-◌, ◌*◌, ◌≡◌, refl, [], ◌∷◌, Option, none, some, Bool, ◌&&◌, if◌then◌else◌, leb, ◌==◌,
  all,
}
use circleftp_jellyfin.Base.Text.{Text, codes, is_space, trim}

abbrev pub is_digit : ℕ → Bool
is_digit c = leb b'0' c && leb c b'9'

-- `(\d+)\s*$` from here on; `seen` is the number read so far.
unfoldable pub digits_to_end : Option ℕ → Text → Option ℕ
unfolding is_space
digits_to_end seen [] = seen
digits_to_end none (c ∷ s) =
    let rest = digits_to_end (some (c - b'0')) s in if is_digit c then rest else none
digits_to_end (some n) (c ∷ s) =
    let rest = digits_to_end (some (n * 10 + (c - b'0'))) s in
    if is_digit c then rest else if is_space c && all is_space s then some n else none

-- `/\/(\d+)\s*$/`: the first "/" from which the rest of the pattern fits.
unfoldable pub range_total : Text → Option ℕ
unfolding digits_to_end
range_total [] = none
range_total (c ∷ s) =
    let later = range_total s in
    if c == b'/' then elim (digits_to_end none s) [ none ↦ later | some n ↦ some n ] else later

-- `Number(text)` of a header that holds a decimal number; `none` where it is not finite.
unfoldable pub number_of : Text → Option ℕ
unfolding digits_to_end
number_of s = digits_to_end none (trim s)

unfoldable pub total_from_headers : Text → Option Text → ℕ → Option ℕ
unfolding range_total number_of
total_from_headers content_range content_length resume_from = elim (range_total content_range) [
  | some n ↦ some n
  | none ↦ elim content_length [
    | none ↦ none
    | some s ↦ elim (number_of s) [ none ↦ none | some n ↦ some (resume_from + n) ]
  ]
]

from_range : total_from_headers (codes "bytes 0-0/12345 ") (some (codes "1")) 7 ≡ some 12345
unfolding total_from_headers
from_range = refl

from_length : total_from_headers (codes "bytes 5-9/*") (some (codes "5")) 5 ≡ some 10
unfolding total_from_headers
from_length = refl
