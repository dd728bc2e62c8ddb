-- ===== src/Downloads/Queue/Drain.antt =====
-- `drain` of downloads/queue.ts: which job it claims, how many run, and when it stops.
use circleftp_jellyfin.Base.{
  ℕ, zero, suc, ◌+◌, ◌≤◌, ◌<◌, ◌≡◌, refl, sym, subst, [], ◌∷◌, Option, none, some, Bool, true,
  false, arith, not, if◌then◌else◌, ◌==◌, ==_refl, ltb, leb, ◌&&◌, All, length, Bool-cases,
  Option-cases, inl, inr, ◌⊎◌,
}
use circleftp_jellyfin.Downloads.Model.{Download, Downloads, is_queued}
use circleftp_jellyfin.Downloads.Queue.{
  QueueState, earlier, next_queued, start_row, claim, drain, queued_count, wake,
}

-- The job that is claimed is QUEUED, and no QUEUED job is older.
abbrev pub IsOldest : Downloads → Option Download → Type 0
IsOldest ds none = All (λ d. is_queued d.status ≡ false) ds
IsOldest ds (some n) =
    (is_queued n.status ≡ true)
    × All (λ d. is_queued d.status ≡ true → n.created_at ≤ d.created_at) ds

IsOldest-mono :
    (m n : ℕ) (ds : Downloads)
    → m ≤ n
    → All (λ d. is_queued d.status ≡ true → n ≤ d.created_at) ds
    → All (λ d. is_queued d.status ≡ true → m ≤ d.created_at) ds
IsOldest-mono m n [] h a = tt
IsOldest-mono m n (d ∷ ds) h (p, a) = (λ e. omega (arith, p e), IsOldest-mono m n ds h a)

none_queued :
    (n : ℕ) (ds : Downloads)
    → All (λ d. is_queued d.status ≡ false) ds
    → All (λ d. is_queued d.status ≡ true → n ≤ d.created_at) ds
none_queued n [] a = tt
none_queued n (d ∷ ds) (p, a) = (λ e. cc, none_queued n ds a)

earlier-IsOldest :
    (d : Download) (ds : Downloads) (later : Option Download)
    → is_queued d.status ≡ true
    → IsOldest ds later
    → IsOldest (d ∷ ds) (some (earlier d later))
earlier-IsOldest d ds none q h = (q, (λ _. omega arith, none_queued d.created_at ds h))
earlier-IsOldest d ds (some e) q (qe, h) = elim (Bool-cases (leb d.created_at e.created_at)) [
  | inl le ↦
      let this : earlier d (some e) ≡ d = rw le in
      subst (λ t. IsOldest (d ∷ ds) (some t)) (sym this)
        (q, (λ _. omega arith, IsOldest-mono d.created_at e.created_at ds (ground arith) h))
  | inr gt ↦
      let that : earlier d (some e) ≡ e = rw gt in
      subst (λ t. IsOldest (d ∷ ds) (some t)) (sym that) (qe, (λ _. ground arith, h))
]

later-IsOldest :
    (d : Download) (ds : Downloads) (later : Option Download)
    → is_queued d.status ≡ false
    → IsOldest ds later
    → IsOldest (d ∷ ds) later
later-IsOldest d ds none q h = (q, h)
later-IsOldest d ds (some e) q (qe, h) = (qe, (λ k. cc, h))

-- `findFirst` by `createdAt` gives a QUEUED job than which no QUEUED job is older, and gives none
-- only where no job is QUEUED.
pub next_queued-IsOldest : (ds : Downloads) → IsOldest ds (next_queued ds)
unfolding next_queued
next_queued-IsOldest [] = tt
next_queued-IsOldest (d ∷ ds) = elim (Bool-cases (is_queued d.status)) [
  | inl e ↦ rw e (earlier-IsOldest d ds (next_queued ds) e (next_queued-IsOldest ds))
  | inr e ↦ rw e (later-IsOldest d ds (next_queued ds) e (next_queued-IsOldest ds))
]

count_of_none : (ds : Downloads) → All (λ d. is_queued d.status ≡ false) ds → queued_count ds ≡ 0
count_of_none [] a = refl
count_of_none (d ∷ ds) (p, a) = ground (arith, count_of_none ds a)

-- A claim takes away as many QUEUED rows as it counts.
claim-count :
    (id now : ℕ) (ds : Downloads)
    → queued_count (claim id now ds).0 + (claim id now ds).1 ≡ queued_count ds
unfolding claim start_row
claim-count id now [] = refl
claim-count id now (d ∷ ds) = ground (arith, claim-count id now ds)

-- What is found is there to be claimed.
pub earlier-claimable :
    (d : Download) (later : Option Download)
    → (earlier d later ≡ d) ⊎ (some (earlier d later) ≡ later)
earlier-claimable d none = inl refl
earlier-claimable d (some e) = ground arith

pub claim_pos :
    (ds : Downloads) (n : Download) (now : ℕ) → next_queued ds ≡ some n → 0 < (claim n.id now ds).1
unfolding claim next_queued
claim_pos [] n now e = cc
claim_pos (d ∷ ds) n now e =
    ground (arith, claim_pos ds n now, earlier-claimable d (next_queued ds), ==_refl d.id)

-- What `drain` promises: it never runs more jobs than the limit, its counter goes with the jobs in
-- flight, and when it stops of itself either all slots are taken or no job is QUEUED.
pub record IsDrained (concurrency : ℕ) (q : QueueState) : Type 0 where
  pub within : q.running ≤ concurrency
  pub counted : q.running ≡ length q.in_flight
  pub exhausted : q.is_stopped ≡ false → (q.running ≡ concurrency) ⊎ (queued_count q.downloads ≡ 0)

drain-IsDrained :
    (fuel concurrency now : ℕ) (q : QueueState)
    → q.running ≤ concurrency
    → q.running ≡ length q.in_flight
    → queued_count q.downloads ≤ fuel
    → IsDrained concurrency (drain fuel concurrency now q)
unfolding drain
drain-IsDrained zero concurrency now q w c h = record {
  within = w;
  counted = c;
  exhausted = λ _. inr (omega arith);
}
drain-IsDrained (suc fuel) concurrency now q w c h =
    elim (Bool-cases (not q.is_stopped && ltb q.running concurrency)) [
      | inl e ↦ elim (Option-cases (next_queued q.downloads)) [
        | inl none_left ↦
            let empty = subst (IsOldest q.downloads) none_left (next_queued-IsOldest q.downloads) in
            rw (e, none_left)
              (record {
                within = w;
                counted = c;
                exhausted = λ _. inr (count_of_none q.downloads empty);
              })
        | inr (n, found) ↦
            let claimed = claim_pos q.downloads n now found in
            let some_claimed : ((claim n.id now q.downloads).1 == 0) ≡ false = ground arith in
            rw (e, found, some_claimed)
              (drain-IsDrained fuel concurrency now _ (ground arith) (omega arith)
                (omega (arith, claim-count n.id now q.downloads)))
      ]
      | inr e ↦ rw e (record { within = w; counted = c; exhausted = ground arith })
    ]

-- Whenever the queue is woken it keeps to the limit, and unless it has been stopped it goes on
-- until every slot is taken or no job is QUEUED.
pub wake-IsDrained :
    (concurrency now : ℕ) (q : QueueState)
    → q.running ≤ concurrency
    → q.running ≡ length q.in_flight
    → IsDrained concurrency (wake concurrency now q)
unfolding wake
wake-IsDrained concurrency now q w c = by_flag q.is_stopped refl
  where
    by_flag :
        (b : Bool)
        → q.is_stopped ≡ b
        → IsDrained concurrency
            (if b then q else drain (queued_count q.downloads) concurrency now q)
    by_flag true e = record { within = w; counted = c; exhausted = λ k. cc }
    by_flag false e = drain-IsDrained (queued_count q.downloads) concurrency now q w c (omega arith)
