-- ===== src/Downloads/Speed.antt =====
-- The speed samples of downloads/service.ts. A rate is a fraction in bytes per second, exact where the
-- source has a double; times are milliseconds of a clock that does not go back.
pub mod Laws
use circleftp_jellyfin.Base.{
  ℕ, ◌+◌, ◌-◌, ◌*◌, ◌/◌, List, [], ◌∷◌, Option, none, some, Bool, true, false, ◌||◌, not,
  if◌then◌else◌, ltb, ◌==◌, filter,
}
use circleftp_jellyfin.Downloads.Model.{DownloadStatus, is_running}

pub record Rate : Type 0 where
  pub bytes : ℕ
  pub per : ℕ

abbrev pub is_positive : Rate → Bool
is_positive r = ltb 0 r.bytes

-- `rate || null` and `rate > 0 ? rate : null`
abbrev pub if_positive : Rate → Option Rate
if_positive r = if is_positive r then some r else none

-- `previous * 0.6 + instant * 0.4`
unfoldable pub smooth : Rate → Rate → Rate
smooth previous instant = record {
  bytes = 6 * (previous.bytes * instant.per) + 4 * (instant.bytes * previous.per);
  per = 10 * (previous.per * instant.per);
}

-- `Math.round`
unfoldable pub round : Rate → ℕ
round r = (2 * r.bytes + r.per) / (2 * r.per)

pub record Sample : Type 0 where
  pub id : ℕ
  pub bytes : ℕ
  pub at : ℕ
  pub bps : Rate

abbrev pub find_sample : ℕ → List Sample → Option Sample
find_sample id [] = none
find_sample id (s ∷ ss) = if s.id == id then some s else find_sample id ss

unfoldable pub clear_sample : ℕ → List Sample → List Sample
clear_sample id = filter (λ s. not (s.id == id))

abbrev pub set_sample : Sample → List Sample → List Sample
set_sample s ss = s ∷ clear_sample s.id ss

abbrev pub zero_rate : Rate
zero_rate = record { bytes = 0; per = 1 }

-- `delta > 0 ? delta / elapsed : 0`; a difference of ℕ stops at 0.
unfoldable pub instant_rate : Sample → ℕ → ℕ → Rate
instant_rate previous bytes now = record {
  bytes = (bytes - previous.bytes) * 1000;
  per = now - previous.at;
}

unfoldable pub next_rate : Sample → ℕ → ℕ → Rate
unfolding smooth instant_rate
next_rate previous bytes now =
    let instant = instant_rate previous bytes now in
    if is_positive previous.bps then smooth previous.bps instant else instant

unfoldable pub record_sample : ℕ → ℕ → ℕ → List Sample → List Sample × Option Rate
unfolding next_rate clear_sample
record_sample id bytes now samples = elim (find_sample id samples) [
  | none ↦ (set_sample (record { id = id; bytes = bytes; at = now; bps = zero_rate }) samples, none)
  | some previous ↦
      if ltb (now - previous.at) 1000
      then (samples, if_positive previous.bps)
      else let rate = next_rate previous bytes now in
        (
          set_sample (record { id = id; bytes = bytes; at = now; bps = rate }) samples,
          if_positive rate,
        )
]

unfoldable pub current_speed : ℕ → DownloadStatus → ℕ → List Sample → Option ℕ
unfolding round
current_speed id status now samples =
    if not (is_running status) then none else elim (find_sample id samples) [
      | none ↦ none
      | some s ↦
          if not (is_positive s.bps) || ltb 15000 (now - s.at) then none else some (round s.bps)
    ]
