-- ===== src/Circleftp/Search/Bands.antt =====
-- The order of the sort of circleftp/search.ts, as bands of one score each.
use circleftp_jellyfin.Base.{
  ℕ, zero, suc, ◌+◌, ◌≤◌, ◌<◌, ◌≡◌, refl, sym, ap, ◌∙◌, List, [], ◌∷◌, ◌++◌, true, false, ◌==◌,
  filter, All, All-append, Bool-cases, inl, inr, arith, ==_iff, append-nil, append_assoc,
}
use circleftp_jellyfin.Circleftp.Search.{Scored, is_before, insert, sort}

-- The entries of one score, in the order in which they stand.
abbrev pub band : ℕ → List Scored → List Scored
band k es = filter (λ e. e.score == k) es

-- The bands of n scores from k on, one after another.
abbrev pub bands : ℕ → ℕ → List Scored → List Scored
bands zero k es = []
bands (suc n) k es = band k es ++ bands n (suc k) es

-- No entry stands before e.
abbrev NotBefore : Scored → Scored → Type 0
NotBefore e x = is_before e x ≡ false

-- e stands before the entry.
abbrev Behind : Scored → Scored → Type 0
Behind e x = is_before e x ≡ true

insert-skip :
    (e : Scored) (xs ys : List Scored)
    → All (NotBefore e) xs
    → insert e (xs ++ ys) ≡ xs ++ insert e ys
unfolding insert
insert-skip e [] ys h = refl
insert-skip e (x ∷ xs) ys (p, h) = rw (insert, p) (ap (◌∷◌ x) (insert-skip e xs ys h))

insert-stop : (e : Scored) (ys : List Scored) → All (Behind e) ys → insert e ys ≡ e ∷ ys
unfolding insert
insert-stop e [] h = refl
insert-stop e (y ∷ ys) (p, h) = rw (insert, p) refl

-- Every entry of a list was found later than e.
abbrev pub Later : ℕ → Scored → Type 0
Later order x = order < x.order

band-NotBefore :
    (e : Scored) (k : ℕ) (es : List Scored) → k < e.score → All (NotBefore e) (band k es)
band-NotBefore e k [] l = tt
band-NotBefore e k (x ∷ es) l = elim (Bool-cases (x.score == k)) [
  | inl h ↦ rw h (ground arith, band-NotBefore e k es l)
  | inr h ↦ rw h (band-NotBefore e k es l)
]

band-Behind :
    (e : Scored) (k : ℕ) (es : List Scored)
    → e.score ≤ k
    → All (Later e.order) es
    → All (Behind e) (band k es)
band-Behind e k [] l h = tt
band-Behind e k (x ∷ es) l (p, h) = elim (Bool-cases (x.score == k)) [
  | inl q ↦ rw q (ground arith, band-Behind e k es l h)
  | inr q ↦ rw q (band-Behind e k es l h)
]

bands-Behind :
    (e : Scored) (n k : ℕ) (es : List Scored)
    → e.score ≤ k
    → All (Later e.order) es
    → All (Behind e) (bands n k es)
bands-Behind e zero k es l h = tt
bands-Behind e (suc n) k es l h =
    All-append (Behind e) (band k es) (bands n (suc k) es) (band-Behind e k es l h)
      (bands-Behind e n (suc k) es (omega arith) h)

not_equal : (a b : ℕ) → a < b → (a == b) ≡ false
not_equal a b l = ground arith

-- The bands above the score of an entry do not hold it.
bands-above :
    (e : Scored) (n k : ℕ) (es : List Scored) → e.score < k → bands n k (e ∷ es) ≡ bands n k es
bands-above e zero k es l = refl
bands-above e (suc n) k es l =
    rw (not_equal e.score k l) (ap (λ r. band k es ++ r) (bands-above e n (suc k) es (omega arith)))

insert-bands :
    (e : Scored) (n k : ℕ) (es : List Scored)
    → k ≤ e.score
    → e.score < k + n
    → All (Later e.order) es
    → insert e (bands n k es) ≡ bands n k (e ∷ es)
insert-bands e zero k es l m h = absurd (omega arith)
insert-bands e (suc n) k es l m h = elim (Bool-cases (e.score == k)) [
  | inl q ↦
      let at : e.score ≡ k = (==_iff e.score k).0 q in
      rw q (
        insert-stop e (bands (suc n) k es) (bands-Behind e (suc n) k es (omega arith) h)
        ∙ ap (λ r. e ∷ (band k es ++ r)) (sym (bands-above e n (suc k) es (omega arith))))
  | inr q ↦
      let above : k < e.score = ground arith in
      rw q (
        insert-skip e (band k es) (bands n (suc k) es) (band-NotBefore e k es above)
        ∙ ap (λ r. band k es ++ r) (insert-bands e n (suc k) es (omega arith) (omega arith) h))
]

bands-nil : (n k : ℕ) → bands n k [] ≡ []
bands-nil zero k = refl
bands-nil (suc n) k = bands-nil n (suc k)

-- Entries whose scores are below the bound, each found later than those before it.
abbrev pub IsNumbered : ℕ → List Scored → Type 0
IsNumbered bound [] = Unit
IsNumbered bound (e ∷ es) = (e.score < bound) × (All (Later e.order) es × IsNumbered bound es)

-- The sort puts the entries into bands of one score, in the order in which they were found.
pub sort-bands : (n : ℕ) (es : List Scored) → IsNumbered n es → sort es ≡ bands n 0 es
unfolding sort
sort-bands n [] h = sym (bands-nil n 0)
sort-bands n (e ∷ es) (l, (later, h)) =
    ap (insert e) (sort-bands n es h) ∙ insert-bands e n 0 es (omega arith) (omega arith) later

pub bands-last : (n k : ℕ) (es : List Scored) → bands (suc n) k es ≡ bands n k es ++ band (k + n) es
bands-last zero k es = rw (append-nil (band k es)) (ap (λ j. band j es) (omega arith))
bands-last (suc n) k es =
    ap (λ r. band k es ++ r) (bands-last n (suc k) es)
    ∙ sym (append_assoc (band k es) (bands n (suc k) es) (band (suc k + n) es))
    ∙ ap (λ j. (band k es ++ bands n (suc k) es) ++ band j es) (omega arith)
