-- ===== src/Cli/Parsing.antt =====
-- `parseFlags` of packages/server/src/cli/manage.ts. The object of flags is an association list, the
-- newest entry first, beside the positional arguments under `_`, which a flag `--_` overwrites: the
-- next positional argument then has no list to go to, which throws.
pub mod Laws
use circleftp_jellyfin.Base.{
  List, [], ◌∷◌, ◌++◌, Option, none, some, Bool, true, false, if◌then◌else◌, drop,
}
use circleftp_jellyfin.Base.Text.{Text, codes, text_eq, starts_with}

-- `true`, or the text that follows.
pub data FlagValue : Type 0 where
  on : FlagValue
  given : Text → FlagValue

pub record Flags : Type 0 where
  pub positional : Option (List Text)
  pub values : List (Text × FlagValue)

abbrev pub find_value : Text → List (Text × FlagValue) → Option FlagValue
find_value key [] = none
find_value key ((k, v) ∷ rest) = if text_eq k key then some v else find_value key rest

abbrev pub is_flag : Text → Bool
is_flag token = starts_with token (codes "--")

unfoldable pub set_flag : Text → FlagValue → Flags → Flags
set_flag key v flags =
    if text_eq key (codes "_")
    then record flags { positional = none }
    else record flags { values = (key, v) ∷ flags.values }

unfoldable pub push_positional : Text → Flags → Option Flags
push_positional token flags = elim flags.positional [
  | none ↦ none
  | some ts ↦ some (record flags { positional = some (ts ++ token ∷ []) })
]

unfoldable pub parse_from : Flags → List Text → Option Flags
unfolding set_flag push_positional
parse_from flags [] = some flags
parse_from flags (token ∷ []) =
    if is_flag token then some (set_flag (drop 2 token) on flags) else push_positional token flags
parse_from flags (token ∷ next ∷ rest) = elim (is_flag token) [
  | false ↦ elim (push_positional token flags) [
    | none ↦ none
    | some pushed ↦ parse_from pushed (next ∷ rest)
  ]
  | true ↦ elim (is_flag next) [
    | true ↦ parse_from (set_flag (drop 2 token) on flags) (next ∷ rest)
    | false ↦ parse_from (set_flag (drop 2 token) (given next) flags) rest
  ]
]

unfoldable pub parse_flags : List Text → Option Flags
unfolding parse_from
parse_flags argv = parse_from (record { positional = some []; values = [] }) argv

-- `str(flags, key)` and `flags[key] === true`
unfoldable pub str : Flags → Text → Option Text
str flags key = elim (find_value key flags.values) [
  | none ↦ none
  | some on ↦ none
  | some (given text) ↦ some text
]

unfoldable pub is_given : Flags → Text → Bool
is_given flags key = elim (find_value key flags.values) [
  | none ↦ false
  | some on ↦ true
  | some (given text) ↦ false
]
