-- ===== src/Circleftp/Client/Laws.antt =====
-- The attempts of `getJson` of circleftp/client.ts.
use circleftp_jellyfin.Base.{
  ℕ, zero, suc, ◌<◌, ◌≡◌, refl, ◌∙◌, ap, Option, none, some, Bool, true, false, if◌then◌else◌, leb,
  ◌==◌, ==_iff, Bool-cases, arith, le→leb, inl, inr,
}
use circleftp_jellyfin.Base.Text.{Text}
use circleftp_jellyfin.Circleftp.Client.{
  Reply, unreachable, answered, Answer, failed, settled, again, is_retryable, max_attempts,
  read_body, try_once, attempts, get_json,
}

-- A failure that another attempt may mend.
abbrev pub is_transient : Reply → Bool
is_transient unreachable = true
is_transient (answered status body) = is_retryable status

module _ {ℓ} {A : Type ℓ} (parse : Text → Option A) where
  -- What an answer that is not transient means.
  abbrev pub meaning : Reply → Answer A
  meaning unreachable = failed none
  meaning (answered status body) =
      if leb 400 status then failed (some status) else read_body parse body

  try_once-transient :
      (more : Bool) (r : Reply)
      → more ≡ true
      → is_transient r ≡ true
      → try_once parse more r ≡ again
  unfolding try_once is_retryable
  try_once-transient more unreachable m h = refl
  try_once-transient more (answered status body) m h = ground arith

  try_once-definite :
      (more : Bool) (r : Reply)
      → is_transient r ≡ false
      → try_once parse more r ≡ settled (meaning r)
  unfolding try_once
  try_once-definite more unreachable h = absurd (cc)
  try_once-definite more (answered status body) h = elim (Bool-cases (status == 404)) [
    | inl e ↦ rw (e, (==_iff status 404).0 e) refl
    | inr e ↦ elim (Bool-cases (leb 400 status)) [
      | inl b ↦ rw (e, b, h) refl
      | inr b ↦ rw (e, b) refl
    ]
  ]

  attempts-settled :
      (left : ℕ) (replies : ℕ → Reply) (a : Answer A)
      → try_once parse (leb 1 left) (replies 0) ≡ settled a
      → attempts parse (suc left) replies ≡ (1, a)
  unfolding attempts
  attempts-settled left replies a e = rw (attempts, e) refl

  attempts-later :
      (left : ℕ) (replies : ℕ → Reply) (k : ℕ) (a : Answer A)
      → 0 < left
      → is_transient (replies 0) ≡ true
      → attempts parse left (λ n. replies (suc n)) ≡ (k, a)
      → attempts parse (suc left) replies ≡ (suc k, a)
  unfolding attempts
  attempts-later left replies k a l h e =
      rw (attempts, try_once-transient (leb 1 left) (replies 0) (le→leb 1 left (omega arith)) h, e)
        refl

  attempts-definite :
      (left k : ℕ) (replies : ℕ → Reply)
      → ((i : ℕ) → i < k → is_transient (replies i) ≡ true)
      → is_transient (replies k) ≡ false
      → k < left
      → attempts parse left replies ≡ (suc k, meaning (replies k))
  attempts-definite zero k replies before h l = absurd (omega arith)
  attempts-definite (suc left) zero replies before h l =
      attempts-settled left replies _ (try_once-definite (leb 1 left) (replies 0) h)
  attempts-definite (suc left) (suc k) replies before h l =
      attempts-later left replies (suc k) (meaning (replies (suc k))) (omega arith)
        (before 0 (omega arith))
        (attempts-definite left k (λ n. replies (suc n)) (λ i j. before (suc i) (omega arith)) h
          (omega arith))

  -- A call is answered: where one of the three attempts gets a definite reply, and those before
  -- it fail in passing, the call ends with what that reply means, after no further request.
  pub get_json-definite :
      (replies : ℕ → Reply) (k : ℕ)
      → k < max_attempts
      → ((i : ℕ) → i < k → is_transient (replies i) ≡ true)
      → is_transient (replies k) ≡ false
      → get_json parse replies ≡ (suc k, meaning (replies k))
  unfolding get_json
  get_json-definite replies k l before h = attempts-definite max_attempts k replies before h l

  -- The last round settles a transient status too.
  settled_status :
      (status : ℕ) (body : Text)
      → is_retryable status ≡ true
      → try_once parse (leb 1 0) (answered status body) ≡ settled (meaning (answered status body))
  unfolding try_once is_retryable
  settled_status status body h = ground arith

  last_round :
      (r : Reply) (replies : ℕ → Reply)
      → is_transient r ≡ true
      → replies 0 ≡ r
      → attempts parse 1 replies ≡ (1, meaning r)
  unfolding attempts
  last_round unreachable replies h e = rw (attempts, e, try_once) refl
  last_round (answered status body) replies h e =
      attempts-settled 0 replies _ (ap (try_once parse (leb 1 0)) e ∙ settled_status status body h)

  -- How a call ends: in the round k with what the reply to it means, after passing failures only.
  abbrev pub Ends : (ℕ → Reply) → ℕ → ℕ × Answer A → ℕ → Type ℓ
  Ends replies left end k =
      (k < left)
      × (((i : ℕ) → i < k → is_transient (replies i) ≡ true) × (end ≡ (suc k, meaning (replies k))))

  transient_before :
      (replies : ℕ → Reply) (k : ℕ)
      → is_transient (replies 0) ≡ true
      → ((i : ℕ) → i < k → is_transient (replies (suc i)) ≡ true)
      → (i : ℕ) → i < suc k
      → is_transient (replies i) ≡ true
  transient_before replies k e before zero j = e
  transient_before replies k e before (suc i) j = before i (omega arith)

  definite_Ends :
      (left : ℕ) (replies : ℕ → Reply)
      → is_transient (replies 0) ≡ false
      → Ends replies (suc left) (attempts parse (suc left) replies) 0
  definite_Ends left replies e = (
    omega arith,
    (
      λ i j. absurd (omega arith),
      attempts-settled left replies _ (try_once-definite (leb 1 left) (replies 0) e),
    ),
  )

  attempts-Ends :
      (left : ℕ) (replies : ℕ → Reply)
      → (k : ℕ) × Ends replies (suc left) (attempts parse (suc left) replies) k
  attempts-Ends zero replies = elim (Bool-cases (is_transient (replies 0))) [
    | inl e ↦ (0, (omega arith, (λ i j. absurd (omega arith), last_round _ replies e refl)))
    | inr e ↦ (0, definite_Ends 0 replies e)
  ]
  attempts-Ends (suc left) replies = elim (Bool-cases (is_transient (replies 0))) [
    | inl e ↦
        let (k, (l, (before, ends))) = attempts-Ends left (λ n. replies (suc n)) in
        (
          suc k,
          (
            omega arith,
            (
              transient_before replies k e before,
              attempts-later (suc left) replies _ _ (omega arith) e ends,
            ),
          ),
        )
    | inr e ↦ (0, definite_Ends (suc left) replies e)
  ]

  -- A call makes between one and three requests, and ends with what the reply to the last of them
  -- means; the replies before it were failures that another attempt may mend.
  pub get_json-Ends :
      (replies : ℕ → Reply) → (k : ℕ) × Ends replies max_attempts (get_json parse replies) k
  unfolding get_json
  get_json-Ends replies = attempts-Ends 2 replies
