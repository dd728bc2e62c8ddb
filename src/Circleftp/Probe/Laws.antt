-- ===== src/Circleftp/Probe/Laws.antt =====
-- Where the size that `probeSize` of circleftp/probe.ts reports comes from.
use circleftp_jellyfin.Base.{
  ℕ, ◌≡◌, Option, none, some, Bool, ◌==◌, Bool-cases, Option-cases, inl, inr, ◌⊎◌, arith, ==_iff,
}
use circleftp_jellyfin.Downloads.Fetcher.Headers.{range_total}
use circleftp_jellyfin.Circleftp.Probe.{
  Head, head, Ranged, ranged, ProbeResult, probe_via_range, parse_length, after_throw, after_head,
  refuses_head, probe_size,
}

-- The host has said that the file has n bytes.
abbrev pub HeadSays : Head → ℕ → Type 0
HeadSays Head.threw n = ⊥
HeadSays (head status accept_ranges content_length) n =
    (status ≡ 200) × (parse_length content_length ≡ some n)

abbrev pub RangedSays : Ranged → ℕ → Type 0
RangedSays Ranged.threw n = ⊥
RangedSays (ranged status content_range) n = range_total content_range ≡ some n

probe_via_range-says :
    (r : Ranged) (p : ProbeResult) (n : ℕ)
    → probe_via_range r ≡ some p
    → p.size ≡ some n
    → RangedSays r n
unfolding probe_via_range
probe_via_range-says Ranged.threw p n h s = ground arith
probe_via_range-says (ranged status content_range) p n h s = ground arith

after_throw-says : (r : Ranged) (n : ℕ) → (after_throw r).size ≡ some n → RangedSays r n
unfolding after_throw probe_via_range
after_throw-says Ranged.threw n s = ground arith
after_throw-says (ranged status content_range) n s = ground arith

after_head-says :
    (status : ℕ) (ranges : Bool) (size : Option ℕ) (first second : Ranged) (n : ℕ)
    → (after_head status ranges size first second).size ≡ some n
    → (size ≡ some n) ⊎ (RangedSays first n ⊎ RangedSays second n)
unfolding after_head
after_head-says status ranges (some m) first second n s = inl s
after_head-says status ranges none first second n s = elim (Bool-cases (refuses_head status)) [
  | inl r ↦ elim (Option-cases (probe_via_range first)) [
    | inl e ↦ inr (inr (after_throw-says second n (ground arith)))
    | inr (p, e) ↦ inr (inl (probe_via_range-says first p n e (ground arith)))
  ]
  | inr r ↦ ground arith
]

-- The size that a probe reports is one that the host has given: the length in its answer 200 to
-- HEAD, or the total of the range in its answer to one of at most two ranged requests.
pub probe_size-says :
    (h : Head) (first second : Ranged) (n : ℕ)
    → (probe_size h first second).size ≡ some n
    → HeadSays h n ⊎ (RangedSays first n ⊎ RangedSays second n)
unfolding probe_size
probe_size-says Head.threw first second n s = inr (inl (after_throw-says first n s))
probe_size-says (head status accept_ranges content_length) first second n s =
    elim (after_head-says status _ _ first second n s) [
      | inl e ↦ elim (Bool-cases (status == 200)) [
        | inl h ↦ inl ((==_iff status 200).0 h, ground arith)
        | inr h ↦ ground arith
      ]
      | inr e ↦ inr e
    ]
