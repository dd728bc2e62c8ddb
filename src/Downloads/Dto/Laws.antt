-- ===== src/Downloads/Dto/Laws.antt =====
-- What the DTO of a download says of its progress.
use circleftp_jellyfin.Base.{
  ℕ, zero, suc, ◌+◌, ◌-◌, ◌*◌, ◌≤◌, ◌<◌, ◌≡◌, refl, sym, subst, [], Option, none, some, true, arith,
  eq_of_some,
}
use native.Mathlib.Nat.{div-mul-le_self, lt-div-mul-add, mul_left_comm}
use circleftp_jellyfin.Format.{round_div}
use circleftp_jellyfin.Downloads.Model.{Download, is_running}
use circleftp_jellyfin.Downloads.Speed.{current_speed}
use circleftp_jellyfin.Downloads.Speed.Laws.{Points, record_all, AllWithin, current_speed-bounded}
use circleftp_jellyfin.Downloads.Dto.{Requester, to_download_dto, remaining_bytes, eta}

-- A rounded quotient, times the divisor, is the dividend within half the divisor.
round_div-near :
    (a v : ℕ)
    → 0 < v
    → (2 * a ≤ 2 * (round_div a v * v) + v) × (2 * (round_div a v * v) ≤ 2 * a + v)
round_div-near a v p =
    let q = round_div a v in
    let low : q * (2 * v) ≤ 2 * a + v = div-mul-le_self (2 * a + v) (2 * v) in
    let high : 2 * a + v < q * (2 * v) + 2 * v = lt-div-mul-add (omega arith) in
    let same : q * (2 * v) ≡ 2 * (q * v) = mul_left_comm q 2 v in
    (omega (arith, high, same), omega (arith, low, same))

-- The estimate fits the speed that is shown and the bytes that are missing.
abbrev pub IsNear : ℕ → ℕ → ℕ → Type 0
IsNear seconds v missing =
    (2 * missing ≤ 2 * (seconds * v) + v) × (2 * (seconds * v) ≤ 2 * missing + v)

eta_inv :
    (speed missing : Option ℕ) (n : ℕ)
    → eta speed missing ≡ some n
    → (v m : ℕ) × (speed ≡ some v) × (missing ≡ some m) × IsNear n v m
eta_inv none missing n h = absurd (cc)
eta_inv (some zero) missing n h = absurd (cc)
eta_inv (some (suc v)) none n h = absurd (cc)
eta_inv (some (suc v)) (some m) n h = (
  suc v,
  m,
  refl,
  refl,
  subst (λ k. IsNear k (suc v) m) (eq_of_some h) (round_div-near m (suc v) (omega arith)),
)

remaining_bytes_inv :
    (total : Option ℕ) (downloaded m : ℕ)
    → remaining_bytes total downloaded ≡ some m
    → (t : ℕ) × (total ≡ some t) × (m ≡ t - downloaded)
remaining_bytes_inv none downloaded m h = absurd (cc)
remaining_bytes_inv (some t) downloaded m h = (t, refl, sym (eq_of_some h))

-- Whatever samples have been taken, an estimate is shown only of a job RUNNING whose total is known,
-- beside a speed that is no more than what no transfer has exceeded between two of its samples, and
-- the estimate times this speed is the bytes that are missing, within half a second's worth.
pub to_download_dto-IsNear :
    (b : ℕ) (ps : Points) (user : Option Requester) (now : ℕ) (d : Download) (n : ℕ)
    → AllWithin b ps []
    → (to_download_dto user now (record_all ps []) d).eta_seconds ≡ some n
    → (is_running d.status ≡ true)
      × ((v total : ℕ) × (d.total_bytes ≡ some total)
          × ((to_download_dto user now (record_all ps []) d).speed_bps ≡ some v)
          × (v ≤ b)
          × IsNear n v (total - d.downloaded_bytes))
unfolding to_download_dto
to_download_dto-IsNear b ps user now d n w h =
    let speed = current_speed d.id d.status now (record_all ps []) in
    let (v, m, e, missing, near) =
      eta_inv speed (remaining_bytes d.total_bytes d.downloaded_bytes) n h in
    let (total, known, same) = remaining_bytes_inv d.total_bytes d.downloaded_bytes m missing in
    let (running, low, _) = current_speed-bounded b ps d.id d.status now v w e in
    (running, (v, total, known, e, low, subst (IsNear n v) same near))
