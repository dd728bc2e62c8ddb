-- ===== src/System/Claims.antt =====
-- The jobs that the queue claims when it is woken.
use circleftp_jellyfin.Base.{
  ℕ, zero, suc, ◌+◌, ◌≤◌, ◌<◌, ◌≡◌, refl, sym, ap, subst, ◌∙◌, List, [], ◌∷◌, Option, none, some,
  Bool, true, false, not, ◌||◌, ◌&&◌, if◌then◌else◌, ◌==◌, ==_iff, ==_refl, ltb, any, map, length,
  arith, All, Bool-cases, Option-cases, inl, inr, eq_of_some,
}
use circleftp_jellyfin.Downloads.Model.{Download, Downloads, find_download, is_queued}
use circleftp_jellyfin.Downloads.Queue.{
  QueueState, start_row, is_claimable, claim, next_queued, drain, wake, queued_count, abort,
}
use circleftp_jellyfin.Downloads.Queue.Drain.{claim_pos, earlier-claimable}
use circleftp_jellyfin.Downloads.Service.Invariant.{IsConsistent}
use circleftp_jellyfin.Downloads.Service.Requests.{has_id, IdsDiffer, find-id}
use circleftp_jellyfin.Downloads.Service.Table.{IsTable}
use circleftp_jellyfin.System.Rows.{runs, runs_at, changed, find-map, absent}

-- No job twice.
abbrev pub AllDiffer : List ℕ → Type 0
AllDiffer [] = Unit
AllDiffer (i ∷ is) = (any (λ k. k == i) is ≡ false) × AllDiffer is

-- A queue and its table: the rows are consistent, the counter is that of the jobs in flight and
-- within the limit, and a download is RUNNING exactly if this process runs its job.
pub record IsSound (concurrency : ℕ) (q : QueueState) : Type 0 where
  pub table : IsTable q.downloads
  pub within : q.running ≤ concurrency
  pub counted : q.running ≡ length q.in_flight
  pub distinct : AllDiffer q.in_flight
  pub matched : (i : ℕ) → runs_at i q.downloads ≡ abort i q

module _ (g : Download → Download) (keeps : (d : Download) → (g d).id ≡ d.id) where
  has_id-map : (ds : Downloads) (k : ℕ) → has_id (map g ds) k ≡ has_id ds k
  has_id-map [] k = refl
  has_id-map (d ∷ ds) k = ground (arith, has_id-map ds k, keeps d)

  pub IdsDiffer-map : (ds : Downloads) → IdsDiffer ds → IdsDiffer (map g ds)
  IdsDiffer-map [] u = tt
  IdsDiffer-map (d ∷ ds) (out, u) =
      (ground (arith, has_id-map ds d.id, keeps d), IdsDiffer-map ds u)

pub map-All :
    (P : Download → Type 0) (g : Download → Download)
    → ((d : Download) → P d → P (g d))
    → (ds : Downloads) → All P ds
    → All P (map g ds)
map-All P g h [] a = tt
map-All P g h (d ∷ ds) (p, a) = (h d p, map-All P g h ds a)

found_later :
    (d : Download) (ds : Downloads) (n : Download)
    → has_id ds d.id ≡ false
    → (find_download n.id ds ≡ some n) × (is_queued n.status ≡ true)
    → (find_download n.id (d ∷ ds) ≡ some n) × (is_queued n.status ≡ true)
found_later d ds n out (found, q) = elim (Bool-cases (d.id == n.id)) [
  | inl same ↦
      let gone : find_download n.id ds ≡ none =
        absent n.id ds (subst (λ i. has_id ds i ≡ false) ((==_iff d.id n.id).0 same) out) in
      ground arith
  | inr other ↦ (rw other found, q)
]

-- The row that is to be claimed is found by its key, and is QUEUED.
next_queued-find :
    (ds : Downloads) (n : Download)
    → IdsDiffer ds
    → next_queued ds ≡ some n
    → (find_download n.id ds ≡ some n) × (is_queued n.status ≡ true)
unfolding next_queued
next_queued-find [] n u h = absurd (cc)
next_queued-find (d ∷ ds) n (out, u) h = elim (Bool-cases (is_queued d.status)) [
  | inl e ↦ elim (earlier-claimable d (next_queued ds)) [
    | inl own ↦
        let this : d ≡ n = ground arith in
        subst (λ x. (find_download x.id (d ∷ ds) ≡ some x) × (is_queued x.status ≡ true)) this
          (rw (==_refl d.id) refl, e)
    | inr later ↦ found_later d ds n out (next_queued-find ds n u (ground arith))
  ]
  | inr e ↦ found_later d ds n out (next_queued-find ds n u (ground arith))
]

start_row-IsConsistent :
    (now : ℕ) (d : Download)
    → is_queued d.status ≡ true
    → IsConsistent d
    → IsConsistent (start_row now d)
unfolding start_row
start_row-IsConsistent now d q c = record {
  closed = λ e. cc;
  idle = λ e. cc;
  stamped = ground (arith, c.stamped);
  keys = c.keys;
}

-- The claim of one row.
module _ (id now : ℕ) where
  abbrev started : Download → Download
  started d = if is_claimable id d then start_row now d else d

  started-id : (d : Download) → (started d).id ≡ d.id
  unfolding start_row
  started-id d = ground arith

  started-IsConsistent : (d : Download) → IsConsistent d → IsConsistent (started d)
  started-IsConsistent d c = elim (Bool-cases (is_claimable id d)) [
    | inl e ↦ rw e (start_row-IsConsistent now d (ground arith) c)
    | inr e ↦ rw e c
  ]

  claim-IsTable : (ds : Downloads) → IsTable ds → IsTable (claim id now ds).0
  unfolding claim
  claim-IsTable ds t = record {
    rows = map-All IsConsistent started started-IsConsistent ds t.rows;
    ids = IdsDiffer-map started started-id ds t.ids;
  }

  -- The claimed row runs, and no other starts or stops.
  claim-runs_at :
      (ds : Downloads) (n : Download)
      → find_download id ds ≡ some n
      → is_queued n.status ≡ true
      → (k : ℕ) → runs_at k (claim id now ds).0 ≡ (id == k || runs_at k ds)
  unfolding claim start_row
  claim-runs_at ds n e q k =
      ap runs (find-map started started-id k ds) ∙ by_row (find_download k ds) refl
    where
      by_row :
          (o : Option Download)
          → find_download k ds ≡ o
          → runs (changed started o) ≡ (id == k || runs o)
      by_row none found = elim (Bool-cases (id == k)) [
        | inl hit ↦
            let gone : find_download id ds ≡ none =
              ap (λ i. find_download i ds) ((==_iff id k).0 hit) ∙ found in
            ground arith
        | inr miss ↦ rw miss refl
      ]
      by_row (some x) found = elim (Bool-cases (id == k)) [
        | inl hit ↦
            let row : n ≡ x =
              eq_of_some (sym e ∙ ap (λ i. find_download i ds) ((==_iff id k).0 hit) ∙ found) in
            let claimable : is_claimable id x ≡ true =
              subst (λ y. is_claimable id y ≡ true) row
                (rw (q, find-id id ds n e, ==_refl id) refl) in
            rw (hit, claimable) refl
        | inr miss ↦
            let other : is_claimable id x ≡ false =
              ground (arith, find-id k ds x found, ==_iff id k) in
            rw (miss, other) refl
      ]

-- What one round of `drain` makes of the queue.
claim-IsSound :
    (concurrency now : ℕ) (q : QueueState) (n : Download)
    → q.running < concurrency
    → next_queued q.downloads ≡ some n
    → IsSound concurrency q
    → IsSound concurrency (record q {
      downloads = (claim n.id now q.downloads).0;
      running = q.running + 1;
      in_flight = n.id ∷ q.in_flight;
    })
unfolding abort
claim-IsSound concurrency now q n l e s =
    let (found, queued) = next_queued-find q.downloads n s.table.ids e in
    let free : abort n.id q ≡ false =
      sym (s.matched n.id) ∙ ap runs found ∙ ground (arith, queued) in
    record {
      table = claim-IsTable n.id now q.downloads s.table;
      within = omega arith;
      counted = omega (arith, s.counted);
      distinct = (free, s.distinct);
      matched = λ i.
          claim-runs_at n.id now q.downloads n found queued i
          ∙ ap (λ b. n.id == i || b) (s.matched i);
    }

drain-IsSound :
    (fuel concurrency now : ℕ) (q : QueueState)
    → IsSound concurrency q
    → IsSound concurrency (drain fuel concurrency now q)
unfolding drain
drain-IsSound zero concurrency now q s = s
drain-IsSound (suc fuel) concurrency now q s =
    elim (Bool-cases (not q.is_stopped && ltb q.running concurrency)) [
      | inl e ↦ elim (Option-cases (next_queued q.downloads)) [
        | inl none_left ↦ rw (drain, e, none_left) s
        | inr (n, found) ↦
            let claimed = claim_pos q.downloads n now found in
            let some_claimed : ((claim n.id now q.downloads).1 == 0) ≡ false = ground arith in
            rw (drain, e, found, some_claimed)
              (drain-IsSound fuel concurrency now _
                (claim-IsSound concurrency now q n (ground arith) found s))
      ]
      | inr e ↦ rw (drain, e) s
    ]

pub wake-IsSound :
    (concurrency now : ℕ) (q : QueueState)
    → IsSound concurrency q
    → IsSound concurrency (wake concurrency now q)
unfolding wake
wake-IsSound concurrency now q s = by_flag q.is_stopped
  where
    by_flag :
        (b : Bool)
        → IsSound concurrency (if b then q else drain (queued_count q.downloads) concurrency now q)
    by_flag true = s
    by_flag false = drain-IsSound (queued_count q.downloads) concurrency now q s
