-- ===== src/Downloads/Speed/Laws.antt =====
-- The speed that is shown stays within what the transfer has done.
use circleftp_jellyfin.Base.{
  ℕ, ◌+◌, ◌-◌, ◌*◌, ◌≤◌, ◌<◌, ◌≡◌, ap, subst, ◌∙◌, eq_of_some, List, [], ◌∷◌, some, Bool, true,
  false, arith, ltb, ◌==◌, filter, All, Bool-cases, Option-cases, inl, inr,
}
use native.Mathlib.Nat.{
  mul_assoc, mul_comm, mul_left_comm, add-mul, mul-le-mul_right, mul-lt-mul_of_pos_left,
  div-lt_iff_lt-mul,
}
use circleftp_jellyfin.Downloads.Model.{DownloadStatus, is_running}
use circleftp_jellyfin.Downloads.Speed.{
  Rate, is_positive, smooth, round, Sample, find_sample, clear_sample, instant_rate, next_rate,
  record_sample, current_speed,
}

-- A rate that is no higher than a bound, and is one.
abbrev pub IsBelow : ℕ → Rate → Type 0
IsBelow bound r = (r.bytes ≤ bound * r.per) × (0 < r.per)

smooth-IsBelow : (b : ℕ) (r q : Rate) → IsBelow b r → IsBelow b q → IsBelow b (smooth r q)
unfolding smooth
smooth-IsBelow b r q (x, p) (y, n) =
    let left : r.bytes * q.per ≤ b * (r.per * q.per) =
      subst (λ m. r.bytes * q.per ≤ m) (mul_assoc b r.per q.per) (mul-le-mul_right q.per x) in
    let right : q.bytes * r.per ≤ b * (r.per * q.per) =
      subst (λ m. q.bytes * r.per ≤ m)
        (mul_assoc b q.per r.per ∙ ap (λ k. b * k) (mul_comm q.per r.per))
        (mul-le-mul_right r.per y) in
    let both : b * (10 * (r.per * q.per)) ≡ 10 * (b * (r.per * q.per)) =
      mul_left_comm b 10 (r.per * q.per) in
    (omega (arith, left, right, both), omega (arith, mul-lt-mul_of_pos_left {k = r.per} n p))

-- How far a transfer is at some time, against the sample before.
abbrev pub IsWithin : ℕ → ℕ → ℕ → ℕ → List Sample → Type 0
IsWithin bound id bytes now samples =
    (s : Sample) → find_sample id samples ≡ some s → (bytes - s.bytes) * 1000 ≤ bound * (now - s.at)

next_rate-IsBelow :
    (b : ℕ) (s : Sample) (bytes now : ℕ)
    → (bytes - s.bytes) * 1000 ≤ b * (now - s.at)
    → ltb (now - s.at) 1000 ≡ false
    → IsBelow b s.bps
    → IsBelow b (next_rate s bytes now)
unfolding next_rate instant_rate
next_rate-IsBelow b s bytes now h k r =
    let instant : IsBelow b (instant_rate s bytes now) = (h, ground (arith, k)) in
    elim (Bool-cases (is_positive s.bps)) [
      | inl e ↦ rw e (smooth-IsBelow b s.bps (instant_rate s bytes now) r instant)
      | inr e ↦ rw e instant
    ]

filter-All :
    (P : Sample → Type 0) (p : Sample → Bool) (ss : List Sample) → All P ss → All P (filter p ss)
filter-All P p [] h = tt
filter-All P p (s ∷ ss) (x, h) = elim (Bool-cases (p s)) [
  | inl e ↦ rw e (x, filter-All P p ss h)
  | inr e ↦ rw e (filter-All P p ss h)
]

find-All :
    (P : Sample → Type 0) (id : ℕ) (ss : List Sample) (s : Sample)
    → find_sample id ss ≡ some s
    → All P ss
    → P s
find-All P id [] s e h = absurd (cc)
find-All P id (x ∷ ss) s e (p, h) = elim (Bool-cases (x.id == id)) [
  | inl hit ↦ subst P (eq_of_some (rw hit at e)) p
  | inr miss ↦ find-All P id ss s (rw miss at e) h
]

abbrev pub AllBelow : ℕ → List Sample → Type 0
AllBelow bound = All (λ s. IsBelow bound s.bps)

record_sample-AllBelow :
    (b id bytes now : ℕ) (ss : List Sample)
    → IsWithin b id bytes now ss
    → AllBelow b ss
    → AllBelow b (record_sample id bytes now ss).0
unfolding record_sample clear_sample
record_sample-AllBelow b id bytes now ss w h = elim (Option-cases (find_sample id ss)) [
  | inl e ↦ rw (record_sample, e) ((omega arith, omega arith), filter-All _ _ ss h)
  | inr (s, e) ↦ elim (Bool-cases (ltb (now - s.at) 1000)) [
    | inl k ↦ rw (record_sample, e, k) h
    | inr k ↦
        rw (record_sample, e, k)
          (
            next_rate-IsBelow b s bytes now (w s e) k (find-All (λ x. IsBelow b x.bps) id ss s e h),
            filter-All _ _ ss h,
          )
  ]
]

round-le : (b : ℕ) (r : Rate) → IsBelow b r → round r ≤ b
unfolding round
round-le b r (x, p) =
    let twice : b * (2 * r.per) ≡ 2 * (b * r.per) = mul_left_comm b 2 r.per in
    let below : 2 * r.bytes + r.per < (b + 1) * (2 * r.per) =
      omega (arith, add-mul b 1 (2 * r.per), twice) in
    omega (
      arith,
      (div-lt_iff_lt-mul {k = 2 * r.per} {x = 2 * r.bytes + r.per} {y = b + 1} (omega arith)).1
          below,
    )

-- The points at which a sample is taken: the job, its bytes on disk, and the time.
abbrev pub Points : Type 0
Points = List (ℕ × ℕ × ℕ)

unfoldable pub record_all : Points → List Sample → List Sample
record_all [] ss = ss
record_all ((id, bytes, now) ∷ ps) ss = record_all ps (record_sample id bytes now ss).0

abbrev pub AllWithin : ℕ → Points → List Sample → Type 0
AllWithin b [] ss = Unit
AllWithin b ((id, bytes, now) ∷ ps) ss =
    IsWithin b id bytes now ss × AllWithin b ps (record_sample id bytes now ss).0

record_all-AllBelow :
    (b : ℕ) (ps : Points) (ss : List Sample)
    → AllWithin b ps ss
    → AllBelow b ss
    → AllBelow b (record_all ps ss)
unfolding record_all
record_all-AllBelow b [] ss w h = h
record_all-AllBelow b ((id, bytes, now) ∷ ps) ss (x, w) h =
    record_all-AllBelow b ps _ w (record_sample-AllBelow b id bytes now ss x h)

-- Whatever samples are taken, a speed that is shown is that of a job RUNNING whose last sample is at
-- most fifteen seconds old, and no more than the bytes a second that no transfer has exceeded between
-- two of its samples.
pub current_speed-bounded :
    (b : ℕ) (ps : Points) (id : ℕ) (status : DownloadStatus) (now n : ℕ)
    → AllWithin b ps []
    → current_speed id status now (record_all ps []) ≡ some n
    → (is_running status ≡ true)
      × (n ≤ b)
      × ((s : Sample) × (find_sample id (record_all ps []) ≡ some s) × (now - s.at ≤ 15000))
unfolding current_speed
current_speed-bounded b ps id status now n w h =
    let ss = record_all ps [] in
    elim (Option-cases (find_sample id ss)) [
      | inl e ↦ absurd (ground (arith, e))
      | inr (s, e) ↦
          let low =
            round-le b s.bps
              (find-All (λ x. IsBelow b x.bps) id ss s e (record_all-AllBelow b ps [] w tt)) in
          (ground (arith, e), ground (arith, e, low), (s, e, ground (arith, e)))
    ]
