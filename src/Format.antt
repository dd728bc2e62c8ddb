-- ===== src/Format.antt =====
-- packages/shared/src/format.ts: what the pages show of sizes, speeds, times and progress. A value is a
-- whole number; a quotient is exact where the source has a double. What is unknown is shown as a dash.
pub mod Laws
use circleftp_jellyfin.Base.{
  ℕ, zero, suc, ◌+◌, ◌*◌, ◌/◌, ◌%◌, ◌++◌, [], ◌∷◌, Option, none, some, Bool, true, false,
  if◌then◌else◌, ltb, leb, ◌==◌,
}
use circleftp_jellyfin.Base.Text.{Text, codes}
use circleftp_jellyfin.Circleftp.Plan.{decimal}

abbrev pub dash : Text
dash = 0x2014 ∷ []

-- `Math.round` of a quotient.
abbrev pub round_div : ℕ → ℕ → ℕ
round_div a b = (2 * a + b) / (2 * b)

pub data SizeUnit : Type 0 where
  bytes kilobytes megabytes gigabytes terabytes : SizeUnit

-- The unit of the list that follows, if one does.
abbrev pub larger : SizeUnit → Option SizeUnit
larger bytes = some kilobytes
larger kilobytes = some megabytes
larger megabytes = some gigabytes
larger gigabytes = some terabytes
larger terabytes = none

abbrev pub unit_size : SizeUnit → ℕ
unit_size bytes = 1
unit_size kilobytes = 1024
unit_size megabytes = 1048576
unit_size gigabytes = 1073741824
unit_size terabytes = 1099511627776

abbrev pub unit_name : SizeUnit → Text
unit_name bytes = codes "B"
unit_name kilobytes = codes "KB"
unit_name megabytes = codes "MB"
unit_name gigabytes = codes "GB"
unit_name terabytes = codes "TB"

-- The loop, from a unit on; there are four larger ones at most.
unfoldable pub unit_from : ℕ → SizeUnit → ℕ → SizeUnit
unit_from zero unit n = unit
unit_from (suc fuel) unit n =
    let next : SizeUnit = elim (larger unit) [ none ↦ unit | some u ↦ unit_from fuel u n ] in
    if leb (1024 * unit_size unit) n then next else unit

unfoldable pub unit_of : ℕ → SizeUnit
unfolding unit_from
unit_of n = unit_from 4 bytes n

abbrev pub is_small : SizeUnit → Bool
is_small bytes = true
is_small kilobytes = true
is_small _ = false

-- Whole numbers for B and KB, one decimal above.
unfoldable pub size_text : ℕ → Text
unfolding unit_of decimal
size_text n =
    let unit = unit_of n in
    let tenths = round_div (10 * n) (unit_size unit) in
    (if is_small unit
      then decimal (round_div n (unit_size unit))
      else decimal (tenths / 10) ++ (b'.' ∷ decimal (tenths % 10)))
    ++ (b' ' ∷ unit_name unit)

unfoldable pub human_size : Option ℕ → Text
unfolding size_text
human_size none = dash
human_size (some n) = size_text n

unfoldable pub human_speed : Option ℕ → Text
unfolding size_text
human_speed none = dash
human_speed (some zero) = dash
human_speed (some (suc n)) = size_text (suc n) ++ codes "/s"

-- The two largest units of a duration.
pub data Duration : Type 0 where
  seconds : ℕ → Duration
  minutes hours days : ℕ → ℕ → Duration

unfoldable pub duration_of : ℕ → Duration
duration_of total =
    let in_minutes = total / 60 in
    let in_hours = in_minutes / 60 in
    if ltb total 60
    then seconds total
    else if ltb in_minutes 60
    then minutes in_minutes (total % 60)
    else if ltb in_hours 24
    then hours in_hours (in_minutes % 60)
    else days (in_hours / 24) (in_hours % 24)

unfoldable pub duration_text : Duration → Text
unfolding decimal
duration_text (seconds s) = decimal s ++ codes "s"
duration_text (minutes m s) = decimal m ++ codes "m " ++ decimal s ++ codes "s"
duration_text (hours h m) = decimal h ++ codes "h " ++ decimal m ++ codes "m"
duration_text (days d h) = decimal d ++ codes "d " ++ decimal h ++ codes "h"

unfoldable pub human_duration : Option ℕ → Text
unfolding duration_of duration_text
human_duration none = dash
human_duration (some total) = duration_text (duration_of total)

unfoldable pub percent_complete : ℕ → Option ℕ → ℕ
percent_complete downloaded none = 0
percent_complete downloaded (some zero) = 0
percent_complete downloaded (some (suc n)) =
    let rounded = round_div (downloaded * 100) (suc n) in if ltb 100 rounded then 100 else rounded
