-- ===== src/Format/Laws.antt =====
-- What a page shows of a number says of it.
use circleftp_jellyfin.Base.{
  ℕ, zero, suc, ◌+◌, ◌*◌, ◌/◌, ◌≤◌, ◌<◌, ◌≡◌, inl, inr, refl, Option, none, some, arith, ltb, leb,
  Bool-cases,
}
use circleftp_jellyfin.Format.{
  SizeUnit, bytes, kilobytes, megabytes, gigabytes, terabytes, unit_from, unit_of, Duration,
  seconds, minutes, hours, days, duration_of, percent_complete,
}

-- The time that a duration leaves open, from its first second on.
abbrev pub Covers : Duration → ℕ → Type 0
Covers (seconds s) t = t ≡ s
Covers (minutes m s) t = (t ≡ m * 60 + s) × (m < 60) × (s < 60)
Covers (hours h m) t = (h * 3600 + m * 60 ≤ t) × (t < h * 3600 + m * 60 + 60) × (h < 24) × (m < 60)
Covers (days d h) t = (d * 86400 + h * 3600 ≤ t) × (t < d * 86400 + h * 3600 + 3600) × (h < 24)

-- A duration that is shown is right to its smaller unit.
pub duration_of-Covers : (t : ℕ) → Covers (duration_of t) t
unfolding duration_of
duration_of-Covers t = elim (Bool-cases (ltb t 60)) [
  | inl a ↦ rw a refl
  | inr a ↦ elim (Bool-cases (ltb (t / 60) 60)) [
    | inl b ↦ rw (a, b) (ground arith)
    | inr b ↦ elim (Bool-cases (ltb (t / 60 / 60) 24)) [
      | inl c ↦ rw (a, b, c) (ground arith)
      | inr c ↦ rw (a, b, c) (ground arith)
    ]
  ]
]

-- The unit in which a size is shown: the size is at least one of it, but for bytes, and less than one
-- of the next, but for terabytes.
abbrev pub Suits : SizeUnit → ℕ → Type 0
Suits bytes n = n < 1024
Suits kilobytes n = (1024 ≤ n) × (n < 1048576)
Suits megabytes n = (1048576 ≤ n) × (n < 1073741824)
Suits gigabytes n = (1073741824 ≤ n) × (n < 1099511627776)
Suits terabytes n = 1099511627776 ≤ n

pub unit_of-Suits : (n : ℕ) → Suits (unit_of n) n
unfolding unit_of unit_from
unit_of-Suits n = elim (Bool-cases (leb 1024 n)) [
  | inr a ↦ rw a (ground arith)
  | inl a ↦ elim (Bool-cases (leb 1048576 n)) [
    | inr b ↦ rw (a, b) (ground arith)
    | inl b ↦ elim (Bool-cases (leb 1073741824 n)) [
      | inr c ↦ rw (a, b, c) (ground arith)
      | inl c ↦ elim (Bool-cases (leb 1099511627776 n)) [
        | inr d ↦ rw (a, b, c, d) (ground arith)
        | inl d ↦ rw (a, b, c, d) (ground arith)
      ]
    ]
  ]
]

pub percent_complete-le : (d : ℕ) (t : Option ℕ) → percent_complete d t ≤ 100
unfolding percent_complete
percent_complete-le d none = omega arith
percent_complete-le d (some zero) = omega arith
percent_complete-le d (some (suc n)) = ground arith
