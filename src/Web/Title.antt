-- ===== src/Web/Title.antt =====
-- packages/web/src/pages/Title.tsx: the seasons that are ticked, and the two requests that carry them,
-- with `query` of api/client.ts and `toStringArray` of packages/shared/src/schemas.ts. What the
-- browser encodes into a URL arrives unchanged; the numbers in a path are not modelled.
pub mod Laws
pub mod Preview
mod Tests
use circleftp_jellyfin.Base.{
  ℕ, List, [], ◌∷◌, ◌++◌, Option, none, some, Bool, true, false, not, map, filter, any,
  if◌then◌else◌, ◌==◌,
}
use circleftp_jellyfin.Base.Text.{Text, text_eq, trim}
use circleftp_jellyfin.Downloads.Paths.{is_empty}

-- `toggleSeason`
unfoldable pub toggle_season : Text → List Text → List Text
toggle_season name current =
    if any (text_eq name) current
    then filter (λ item. not (text_eq item name)) current
    else current ++ name ∷ []

-- `names.join(',')`
unfoldable pub join_comma : List Text → Text
join_comma [] = []
join_comma (s ∷ []) = s
join_comma (s ∷ t ∷ ss) = s ++ b',' ∷ join_comma (t ∷ ss)

-- `text.split(',')`
abbrev pub cons_first : ℕ → List Text → List Text
cons_first c [] = (c ∷ []) ∷ []
cons_first c (s ∷ ss) = (c ∷ s) ∷ ss

unfoldable pub split_comma : Text → List Text
split_comma [] = [] ∷ []
split_comma (c ∷ s) = let rest = split_comma s in if c == b',' then [] ∷ rest else cons_first c rest

-- The parameter `seasons` of the request for the page; `query` drops a value that is empty.
unfoldable pub seasons_parameter : List Text → Option Text
unfolding join_comma
seasons_parameter selected =
    let joined = join_comma selected in if is_empty joined then none else some joined

-- `toStringArray`, on one value.
unfoldable pub to_string_array : Option Text → List Text
unfolding split_comma
to_string_array none = []
to_string_array (some value) = filter (λ entry. not (is_empty entry)) (map trim (split_comma value))

-- The seasons that the server takes the page to be asked for.
unfoldable pub previewed : List Text → List Text
unfolding seasons_parameter to_string_array
previewed selected = to_string_array (seasons_parameter selected)
