-- ===== src/Circleftp/Plan.antt =====
-- packages/server/src/circleftp/plan.ts: the plan of a download, and `deduplicatePaths`.
pub mod Duplicates
pub mod Build
mod Tests
use circleftp_jellyfin.Base.{
  ℕ, zero, suc, ◌+◌, ◌/◌, ◌%◌, List, [], ◌∷◌, ◌++◌, Option, none, some, Bool, true, false,
  if◌then◌else◌, ltb, ◌==◌, take, drop,
}
use circleftp_jellyfin.Base.Text.{Text, codes, text_eq}

pub record PlannedFile : Type 0 where
  pub url : Text
  pub rel_path : Text
  pub label : Text
  pub season : Option Text
  pub episode : Option ℕ

pub record SeasonSummary : Type 0 where
  pub name : Text
  pub number : Option ℕ
  pub episode_count : ℕ

pub record DownloadPlan : Type 0 where
  pub folder : Text
  pub files : List PlannedFile
  pub seasons : List SeasonSummary
  pub type : Text

-- `lastIndexOf`; `none` stands for -1.
unfoldable pub last_index_of : ℕ → Text → Option ℕ
last_index_of c [] = none
last_index_of c (d ∷ s) = elim (last_index_of c s) [
  | some i ↦ some (suc i)
  | none ↦ if d == c then some 0 else none
]

-- `dot > slash && dot !== -1`
abbrev pub has_extension : Option ℕ → Option ℕ → Bool
has_extension none slash = false
has_extension (some dot) none = true
has_extension (some dot) (some slash) = ltb slash dot

-- The decimal digits of a number; more rounds than digits change nothing.
unfoldable pub digits_from : ℕ → ℕ → Text
digits_from zero n = []
digits_from (suc fuel) n =
    let more = digits_from fuel (n / 10) in (if ltb n 10 then [] else more) ++ (b'0' + n % 10) ∷ []

unfoldable pub decimal : ℕ → Text
decimal n = digits_from (suc n) n

-- `(${next})`, in front of the extension where the last segment has one.
unfoldable pub suffix_path : Text → ℕ → Text
suffix_path path next =
    let marker = codes " (" ++ (decimal next ++ codes ")") in
    let dot = last_index_of b'.' path in
    if has_extension dot (last_index_of b'/' path)
    then elim dot [ none ↦ path ++ marker | some i ↦ take i path ++ (marker ++ drop i path) ]
    else path ++ marker

-- The `Map` of the paths seen, each with its count.
abbrev pub Seen : Type 0
Seen = List (Text × ℕ)

unfoldable pub seen_count : Text → Seen → Option ℕ
seen_count path [] = none
seen_count path ((key, n) ∷ seen) = if text_eq key path then some n else seen_count path seen

unfoldable pub seen_set : Text → ℕ → Seen → Seen
seen_set path n [] = (path, n) ∷ []
seen_set path n ((key, m) ∷ seen) =
    if text_eq key path then (key, n) ∷ seen else (key, m) ∷ seen_set path n seen

-- The loop of `deduplicatePaths`.
unfoldable pub deduplicate_from : Seen → List PlannedFile → List PlannedFile
deduplicate_from seen [] = []
deduplicate_from seen (file ∷ files) = elim (seen_count file.rel_path seen) [
  | none ↦ file ∷ deduplicate_from (seen_set file.rel_path 1 seen) files
  | some count ↦
      record file { rel_path = suffix_path file.rel_path (count + 1) }
      ∷ deduplicate_from (seen_set file.rel_path (count + 1) seen) files
]

unfoldable pub deduplicate_paths : List PlannedFile → List PlannedFile
deduplicate_paths files = deduplicate_from [] files
