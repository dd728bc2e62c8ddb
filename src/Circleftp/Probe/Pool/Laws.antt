-- ===== src/Circleftp/Probe/Pool/Laws.antt =====
-- What the workers of probeSizes leave, in whatever order they go on.
use circleftp_jellyfin.Base.{
  ℕ, zero, suc, ◌+◌, ◌*◌, ◌≤◌, ◌<◌, ◌≡◌, refl, sym, ap, List, [], ◌∷◌, ◌++◌, some, Bool, true,
  false, ◌||◌, ◌⊎◌, inl, inr, arith, any, subst, eq_of_some, length, All, Bool-cases,
}
use circleftp_jellyfin.Base.Text.{Text, text_eq, text_eq_iff, text_eq_refl, text_eq_sound}
use circleftp_jellyfin.Circleftp.Probe.{ProbeResult}
use circleftp_jellyfin.Circleftp.Probe.Pool.{
  Pool, has, get, worker_count, started, Step, return_done, return_late, skip, take, store, Reach,
  here, next, IsOver,
}

-- Whether a file has a result, is being probed, or waits.
abbrev pub is_kept : Text → Pool → Bool
is_kept url s =
    has url s.results || any (λ u. text_eq u url) s.flying || any (λ u. text_eq u url) s.queue

any-middle :
    (p : Text → Bool) (before : List Text) (u : Text) (after : List Text)
    → any p (before ++ u ∷ after) ≡ (p u || any p (before ++ after))
any-middle p [] u after = refl
any-middle p (x ∷ before) u after = ground (arith, any-middle p before u after)

length-middle :
    (before : List Text) (u : Text) (after : List Text)
    → length (before ++ u ∷ after) ≡ suc (length (before ++ after))
length-middle [] u after = refl
length-middle (x ∷ before) u after = ap suc (length-middle before u after)

-- The steps that are left at most.
abbrev pub measure : Pool → ℕ
measure s = 3 * length s.queue + 2 * length s.flying + s.ready

module _ (Answers : Text → ProbeResult → Type 0) (deadline concurrency : ℕ) (urls : List Text) where
  pub record IsPool (s : Pool) : Type 0 where
    pub workers : s.ready + length s.flying + s.returned ≡ worker_count concurrency urls
    pub kept : All (λ url. is_kept url s ≡ true) urls
    pub answered : All (λ r. Answers r.0 r.1) s.results
    pub emptied : s.is_late ≡ false → 0 < s.returned → s.queue ≡ []

  Step-measure : {s t : Pool} → Step Answers deadline s t → measure t < measure s
  Step-measure (return_done s r e q) = omega (arith, e)
  Step-measure (return_late s r now url rest e q l) = omega (arith, e)
  Step-measure (skip s r now url rest e q l h) = omega (arith, e, ap length q)
  Step-measure (take s r now url rest e q l h) = omega (arith, e, ap length q)
  Step-measure (store s url before after result e a) =
      omega (arith, ap length e, length-middle before url after)

  Step-is_kept :
      {s t : Pool}
      → Step Answers deadline s t
      → (url : Text) → is_kept url s ≡ true
      → is_kept url t ≡ true
  Step-is_kept (return_done s r e q) url k = k
  Step-is_kept (return_late s r now u rest e q l) url k = k
  Step-is_kept (skip s r now u rest e q l h) url k = ground (arith, q, text_eq_iff u url)
  Step-is_kept (take s r now u rest e q l h) url k = ground (arith, q)
  Step-is_kept (store s u before after result e a) url k =
      ground (arith, e, any-middle (λ x. text_eq x url) before u after)

  mapped-All :
      {P Q : Text → Type 0}
      → ((url : Text) → P url → Q url)
      → (us : List Text) → All P us
      → All Q us
  mapped-All f [] h = tt
  mapped-All f (u ∷ us) (p, h) = (f u p, mapped-All f us h)

  Step-IsPool : {s t : Pool} → Step Answers deadline s t → IsPool s → IsPool t
  Step-IsPool (return_done s r e q) k = record {
    workers = omega (arith, e, k.workers);
    kept = k.kept;
    answered = k.answered;
    emptied = λ _ _. q;
  }
  Step-IsPool (return_late s r now url rest e q l) k = record {
    workers = omega (arith, e, k.workers);
    kept = k.kept;
    answered = k.answered;
    emptied = λ n _. cc;
  }
  Step-IsPool (skip s r now url rest e q l h) k = record {
    workers = k.workers;
    kept = mapped-All (Step-is_kept (skip s r now url rest e q l h)) urls k.kept;
    answered = k.answered;
    emptied = λ n p. absurd (ground (arith, k.emptied n p, q));
  }
  Step-IsPool (take s r now url rest e q l h) k = record {
    workers = omega (arith, e, k.workers);
    kept = mapped-All (Step-is_kept (take s r now url rest e q l h)) urls k.kept;
    answered = k.answered;
    emptied = λ n p. absurd (ground (arith, k.emptied n p, q));
  }
  Step-IsPool (store s url before after result e a) k = record {
    workers = omega (arith, k.workers, ap length e, length-middle before url after);
    kept = mapped-All (Step-is_kept (store s url before after result e a)) urls k.kept;
    answered = (a, k.answered);
    emptied = k.emptied;
  }

  started-kept : (us : List Text) → All (λ url. any (λ u. text_eq u url) us ≡ true) us
  started-kept [] = tt
  started-kept (u ∷ us) =
      (rw (text_eq_refl u) refl, mapped-All (λ url h. ground (arith, h)) us (started-kept us))

  pub started-IsPool : IsPool (started concurrency urls)
  unfolding started
  started-IsPool = record {
    workers = omega arith;
    kept = started-kept urls;
    answered = tt;
    emptied = λ n p. absurd (omega (arith, p));
  }

  pub Reach-IsPool : {s : Pool} → Reach Answers deadline (started concurrency urls) s → IsPool s
  Reach-IsPool here = started-IsPool
  Reach-IsPool (next r st) = Step-IsPool st (Reach-IsPool r)

  answered-get :
      (rs : List (Text × ProbeResult)) (url : Text) (r : ProbeResult)
      → All (λ x. Answers x.0 x.1) rs
      → get url rs ≡ some r
      → Answers url r
  answered-get [] url r a h = absurd (cc)
  answered-get ((key, x) ∷ rs) url r (p, a) h = elim (Bool-cases (text_eq key url)) [
    | inl e ↦
        subst (λ y. Answers url y) (eq_of_some (rw e at h))
          (subst (λ k. Answers k x) (text_eq_sound key url e) p)
    | inr e ↦ answered-get rs url r a (rw e at h)
  ]

  has-get :
      (rs : List (Text × ProbeResult)) (url : Text)
      → has url rs ≡ true
      → (r : ProbeResult) × (get url rs ≡ some r)
  has-get [] url h = absurd (cc)
  has-get ((key, x) ∷ rs) url h = elim (Bool-cases (text_eq key url)) [
    | inl e ↦ (x, rw e refl)
    | inr e ↦ let (r, g) = has-get rs url (rw e at h) in (r, rw e g)
  ]

  length-cases : (us : List Text) → (us ≡ []) ⊎ (0 < length us)
  length-cases [] = inl refl
  length-cases (u ∷ us) = inr (omega arith)

  abbrev IsProbed : Pool → Text → Type 0
  IsProbed s url = (r : ProbeResult) × (get url s.results ≡ some r) × Answers url r

  kept-IsProbed :
      (s : Pool)
      → IsPool s
      → s.flying ≡ []
      → s.queue ≡ []
      → (url : Text) → is_kept url s ≡ true
      → IsProbed s url
  kept-IsProbed s k f q url h =
      let (r, g) = has-get s.results url (ground (arith, f, q)) in
      (r, g, answered-get s.results url r k.answered g)

  -- At every time no more probes are under way than the concurrency allows, and every result is one
  -- that its file's host has answered with.
  pub Reach-bounded :
      {s : Pool}
      → Reach Answers deadline (started concurrency urls) s
      → (length s.flying ≤ concurrency)
        × ((url : Text) (r : ProbeResult) → get url s.results ≡ some r → Answers url r)
  Reach-bounded {s} reach =
      let k = Reach-IsPool reach in
      (ground (arith, k.workers), λ url r g. answered-get s.results url r k.answered g)

  -- Where all workers have returned, and none because the time was up, every file has a result.
  pub Reach-complete :
      {s : Pool}
      → 0 < concurrency
      → Reach Answers deadline (started concurrency urls) s
      → IsOver Answers deadline s
      → s.is_late ≡ false
      → All (λ url. (r : ProbeResult) × (get url s.results ≡ some r) × Answers url r) urls
  Reach-complete {s} some_worker reach (no_ready, no_flying) in_time =
      let k = Reach-IsPool reach in
      elim (length-cases urls) [
        | inl e ↦ subst (All (IsProbed s)) (sym e) tt
        | inr long ↦
            let some_returned : 0 < s.returned =
              ground (arith, k.workers, no_ready, ap length no_flying) in
            mapped-All (kept-IsProbed s k no_flying (k.emptied in_time some_returned)) urls k.kept
      ]

  pub step_count : {s t : Pool} → Reach Answers deadline s t → ℕ
  step_count here = 0
  step_count (next r st) = suc (step_count r)

  steps-measure :
      {s t : Pool} (r : Reach Answers deadline s t) → step_count r + measure t ≤ measure s
  unfolding step_count
  steps-measure here = omega arith
  steps-measure (next r st) = omega (arith, Step-measure st, steps-measure r)

  -- Whatever a probe answers, the workers can go on until all have returned.
  can_step :
      ((url : Text) → (r : ProbeResult) × Answers url r)
      → (s : Pool) → IsOver Answers deadline s ⊎ ((t : Pool) × Step Answers deadline s t)
  can_step answer s = by_ready s.ready refl
    where
      by_flying :
          (us : List Text)
          → s.flying ≡ us
          → s.ready ≡ 0
          → IsOver Answers deadline s ⊎ ((t : Pool) × Step Answers deadline s t)
      by_flying [] f e = inl (e, f)
      by_flying (u ∷ us) f e = let (r, a) = answer u in inr (_, store s u [] us r f a)

      by_deadline :
          (r : ℕ) (u : Text) (us : List Text)
          → s.ready ≡ suc r
          → s.queue ≡ u ∷ us
          → (d : ℕ) → deadline ≡ d
          → IsOver Answers deadline s ⊎ ((t : Pool) × Step Answers deadline s t)
      by_deadline r u us e q zero z = inr (_, return_late s r 0 u us e q (omega (arith, z)))
      by_deadline r u us e q (suc d) z = elim (Bool-cases (has u s.results)) [
        | inl h ↦ inr (_, skip s r 0 u us e q (omega (arith, z)) h)
        | inr h ↦ inr (_, take s r 0 u us e q (omega (arith, z)) h)
      ]

      by_queue :
          (r : ℕ)
          → s.ready ≡ suc r
          → (us : List Text) → s.queue ≡ us
          → IsOver Answers deadline s ⊎ ((t : Pool) × Step Answers deadline s t)
      by_queue r e [] q = inr (_, return_done s r e q)
      by_queue r e (u ∷ us) q = by_deadline r u us e q deadline refl

      by_ready :
          (r : ℕ)
          → s.ready ≡ r
          → IsOver Answers deadline s ⊎ ((t : Pool) × Step Answers deadline s t)
      by_ready zero e = by_flying s.flying refl e
      by_ready (suc r) e = by_queue r e s.queue refl

  -- Where every probe ends, the workers cannot go on for more than three steps for each file and one
  -- for each worker, and as long as one has not returned, some worker can go on.
  pub Reach-terminates :
      ((url : Text) → (r : ProbeResult) × Answers url r)
      → {s : Pool} (reach : Reach Answers deadline (started concurrency urls) s)
      → (step_count reach ≤ 3 * length urls + worker_count concurrency urls)
        × (IsOver Answers deadline s ⊎ ((t : Pool) × Step Answers deadline s t))
  unfolding started
  Reach-terminates answer {s} reach = (omega (arith, steps-measure reach), can_step answer s)
