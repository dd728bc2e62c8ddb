-- ===== src/Downloads/Paths.antt =====
-- packages/server/src/downloads/paths.ts: where a file may be written, and whether it fits.
-- `path.resolve` is Node's, on POSIX paths; `env.MEDIA_ROOT` enters as the root that
-- `path.resolve` has already made absolute and normal.
pub mod Laws
mod Tests
use circleftp_jellyfin.Base.{
  ℕ, ◌+◌, ◌*◌, ◌^◌, List, [], ◌∷◌, ◌++◌, Option, none, some, Bool, true, false, ◌&&◌, ◌||◌, not,
  map, if◌then◌else◌, leb, ◌==◌, filter, get_or_else,
}
use mathlib.Core.List.{reverse, tail}
use circleftp_jellyfin.Base.Text.{Text, codes, text_eq, trim, starts_with}
use circleftp_jellyfin.Base.Result.{Result, ok, err, ◌>>=◌, ◌>>◌, throw_if, bad_request}
use circleftp_jellyfin.Circleftp.Text.{sanitize}

-- `s.split('/')`
abbrev pub cons_head : ℕ → List Text → List Text
cons_head c [] = (c ∷ []) ∷ []
cons_head c (s ∷ ss) = (c ∷ s) ∷ ss

unfoldable pub split_slash : Text → List Text
split_slash [] = [] ∷ []
split_slash (c ∷ s) = let rest = split_slash s in if c == b'/' then [] ∷ rest else cons_head c rest

-- An absolute path from its segments; the root itself is "/".
abbrev pub render : List Text → Text
render [] = []
render (s ∷ ss) = b'/' ∷ (s ++ render ss)

abbrev pub render_path : List Text → Text
render_path [] = b'/' ∷ []
render_path (s ∷ ss) = render (s ∷ ss)

-- `path.resolve`: a later absolute argument starts over, an empty one is skipped.
unfoldable pub join_arguments : Text → List Text → Text
join_arguments acc [] = acc
join_arguments acc ([] ∷ args) = join_arguments acc args
join_arguments acc ((c ∷ s) ∷ args) =
    join_arguments (if c == b'/' then c ∷ s else acc ++ (b'/' ∷ c ∷ s)) args

-- One segment onto the stack of those kept, the last one first.
unfoldable pub enter : List Text → Text → List Text
enter stack s =
    if text_eq s [] || text_eq s (codes ".")
    then stack
    else if text_eq s (codes "..")
    then tail stack
    else s ∷ stack

unfoldable pub enter_all : List Text → List Text → List Text
enter_all stack [] = reverse stack
enter_all stack (s ∷ ss) = enter_all (enter stack s) ss

unfoldable pub path_resolve : Text → List Text → Text
unfolding enter_all enter join_arguments split_slash
path_resolve root args = render_path (enter_all [] (split_slash (join_arguments root args)))

-- The segments of `relPath` that are kept, each one sanitised.
abbrev pub is_usable : Text → Bool
is_usable s = not (text_eq s [] || text_eq s (codes ".") || text_eq s (codes ".."))

unfoldable pub safe_segments : Text → List Text
unfolding split_slash sanitize
safe_segments rel_path =
    map (λ s. sanitize s (codes "file")) (filter is_usable (map trim (split_slash rel_path)))

abbrev pub is_empty {ℓ} : {A : Type ℓ} → List A → Bool
is_empty [] = true
is_empty (_ ∷ _) = false

unfoldable pub resolve_destination : Text → Text → Text → Result Text
unfolding safe_segments path_resolve sanitize
resolve_destination root folder rel_path = do
  let segments = safe_segments rel_path
  throw_if (is_empty segments) bad_request
  let resolved = path_resolve root (sanitize folder (codes "untitled") ∷ segments)
  throw_if (not (text_eq resolved root) && not (starts_with resolved (root ++ codes "/")))
      bad_request
  ok resolved

abbrev pub part_suffix : Text
part_suffix = codes ".part"

abbrev pub part_path_for : Text → Text
part_path_for destination = destination ++ part_suffix

-- The bytes free on the volume, `none` where they are unknown (`Infinity`).
pub record SpaceCheck : Type 0 where
  pub is_ok : Bool
  pub free : Option ℕ
  pub required : ℕ

unfoldable pub check_space : ℕ → Option ℕ → Option ℕ → SpaceCheck
check_space min_free_gib free incoming_bytes =
    let required = get_or_else incoming_bytes 0 + min_free_gib * 1024 ^ 3 in
    record {
      is_ok = elim free [ none ↦ true | some bytes ↦ leb required bytes ];
      free = free;
      required = required;
    }
