-- ===== src/Circleftp/Probe.antt =====
-- circleftp/probe.ts: the size of a file, as its host tells it. What the host answers to the HEAD
-- request and to each ranged request is an argument. `probeSizes`, which runs several probes at once
-- until a deadline, is left out.
pub mod Laws
pub mod Pool
mod Tests
use circleftp_jellyfin.Base.{
  ℕ, ◌+◌, List, [], ◌∷◌, Option, none, some, Bool, true, false, ◌||◌, if◌then◌else◌, ◌==◌, map,
}
use circleftp_jellyfin.Base.Text.{Text, codes, text_eq, to_lower_char}
use circleftp_jellyfin.Downloads.Fetcher.Headers.{range_total, number_of}

-- A request throws, or is answered with the headers that are read; an absent header is empty.
pub data Head : Type 0 where
  threw : Head
  head : ℕ → Text → Text → Head

pub data Ranged : Type 0 where
  threw : Ranged
  ranged : ℕ → Text → Ranged

pub record ProbeResult : Type 0 where
  pub size : Option ℕ
  pub status : Option ℕ
  pub supports_range : Bool

-- `none` where the request throws.
unfoldable pub probe_via_range : Ranged → Option ProbeResult
unfolding range_total
probe_via_range Ranged.threw = none
probe_via_range (ranged status content_range) = elim (range_total content_range) [
  | some n ↦ some (record { size = some n; status = some status; supports_range = true })
  | none ↦ some (record { size = none; status = some status; supports_range = false })
]

unfoldable pub parse_length : Text → Option ℕ
unfolding number_of
parse_length raw = if text_eq raw [] then none else number_of raw

-- The `catch`, with the reply to its own request.
unfoldable pub after_throw : Ranged → ProbeResult
unfolding probe_via_range
after_throw r = elim (probe_via_range r) [
  | some result ↦ result
  | none ↦ record { size = none; status = none; supports_range = false }
]

abbrev pub refuses_head : ℕ → Bool
refuses_head status = status == 403 || status == 405 || status == 501

-- What follows the answer to HEAD, with the length that it gives; a ranged request that throws in
-- the `try` is made again in the `catch`.
unfoldable pub after_head : ℕ → Bool → Option ℕ → Ranged → Ranged → ProbeResult
unfolding probe_via_range after_throw
after_head status ranges (some n) first second = record {
  size = some n;
  status = some 200;
  supports_range = ranges;
}
after_head status ranges none first second =
    if refuses_head status
    then elim (probe_via_range first) [ some result ↦ result | none ↦ after_throw second ]
    else record { size = none; status = some status; supports_range = ranges }

unfoldable pub probe_size : Head → Ranged → Ranged → ProbeResult
unfolding parse_length after_head after_throw
probe_size Head.threw first second = after_throw first
probe_size (head status accept_ranges content_length) first second =
    after_head status (text_eq (map to_lower_char accept_ranges) (codes "bytes"))
      (if status == 200 then parse_length content_length else none) first second

-- `totalKnownSize`
unfoldable pub total_known_size : List (Option ℕ) → Option ℕ
total_known_size [] = none
total_known_size (none ∷ sizes) = total_known_size sizes
total_known_size (some n ∷ sizes) = elim (total_known_size sizes) [
  | none ↦ some n
  | some m ↦ some (n + m)
]
