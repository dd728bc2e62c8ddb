-- ===== src/Cli/Parsing/Laws.antt =====
-- Flags that are written out are read back.
use circleftp_jellyfin.Base.{◌≡◌, List, [], ◌∷◌, ◌++◌, Option, none, some, false, if◌then◌else◌}
use circleftp_jellyfin.Base.Text.{Text, codes, text_eq}
use circleftp_jellyfin.Cli.Parsing.{FlagValue, on, given, is_flag}

-- A flag that stands for itself: its key is not that of the positional arguments, and its value, if
-- it has one, does not look like a flag.
abbrev pub IsPlain : Text × FlagValue → Type 0
IsPlain (key, on) = text_eq key (codes "_") ≡ false
IsPlain (key, given text) = (text_eq key (codes "_") ≡ false) × (is_flag text ≡ false)

abbrev pub print_flags : List (Text × FlagValue) → List Text
print_flags [] = []
print_flags ((key, on) ∷ rest) = (codes "--" ++ key) ∷ print_flags rest
print_flags ((key, given text) ∷ rest) = (codes "--" ++ key) ∷ text ∷ print_flags rest

-- What the last of the flags of a name says.
abbrev pub last_value : Text → List (Text × FlagValue) → Option FlagValue
last_value key [] = none
last_value key ((k, v) ∷ rest) = elim (last_value key rest) [
  | some w ↦ some w
  | none ↦ if text_eq k key then some v else none
]

or_else {ℓ} : {A : Type ℓ} → Option A → Option A → Option A
or_else none b = b
or_else (some a) b = some a
