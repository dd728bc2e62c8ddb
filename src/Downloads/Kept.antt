-- ===== src/Downloads/Kept.antt =====
-- What a step of a job leaves alone among the files of its row: those whose key it does not name.
use circleftp_jellyfin.Base.{
  ℕ, ◌≡◌, refl, sym, ap, subst, ◌∙◌, List, [], ◌∷◌, Bool, true, false, map, if◌then◌else◌, ◌==◌,
  ==_iff, All, Bool-cases, inl, inr,
}
use circleftp_jellyfin.Downloads.Model.{DownloadFile, FileStatus}

-- The keys are the same one by one, and a file whose key does not pass the test is the same.
abbrev pub Kept : (ℕ → Bool) → List DownloadFile → List DownloadFile → Type 0
Kept p [] [] = Unit
Kept p [] (_ ∷ _) = ⊥
Kept p (_ ∷ _) [] = ⊥
Kept p (x ∷ xs) (y ∷ ys) = ((y.id ≡ x.id) × (p x.id ≡ false → y ≡ x)) × Kept p xs ys

pub Kept-refl : (p : ℕ → Bool) (xs : List DownloadFile) → Kept p xs xs
Kept-refl p [] = tt
Kept-refl p (x ∷ xs) = ((refl, λ _. refl), Kept-refl p xs)

pub Kept-trans :
    (p : ℕ → Bool) (xs ys zs : List DownloadFile) → Kept p xs ys → Kept p ys zs → Kept p xs zs
Kept-trans p [] [] [] h k = tt
Kept-trans p [] [] (_ ∷ _) h k = k
Kept-trans p [] (_ ∷ _) zs h k = absurd h
Kept-trans p (_ ∷ _) [] zs h k = absurd h
Kept-trans p (_ ∷ _) (_ ∷ _) [] h k = absurd k
Kept-trans p (x ∷ xs) (y ∷ ys) (z ∷ zs) ((i, e), h) ((j, f), k) =
    ((j ∙ i, λ out. f (ap p i ∙ out) ∙ e out), Kept-trans p xs ys zs h k)

pub Kept-mono :
    (p q : ℕ → Bool)
    → ((i : ℕ) → q i ≡ false → p i ≡ false)
    → (xs ys : List DownloadFile) → Kept p xs ys
    → Kept q xs ys
Kept-mono p q m [] [] h = tt
Kept-mono p q m [] (_ ∷ _) h = h
Kept-mono p q m (_ ∷ _) [] h = h
Kept-mono p q m (x ∷ xs) (y ∷ ys) ((i, e), h) =
    ((i, λ out. e (m x.id out)), Kept-mono p q m xs ys h)

-- What is known of the files with a key that is left alone stays known.
pub Kept-All {ℓ} :
    (Q : DownloadFile → Type ℓ) (p : ℕ → Bool) (k : ℕ)
    → p k ≡ false
    → (xs ys : List DownloadFile) → Kept p xs ys
    → All (λ x. (x.id == k) ≡ true → Q x) xs
    → All (λ y. (y.id == k) ≡ true → Q y) ys
Kept-All Q p k out [] [] h a = tt
Kept-All Q p k out [] (_ ∷ _) h a = absurd h
Kept-All Q p k out (_ ∷ _) [] h a = absurd h
Kept-All Q p k out (x ∷ xs) (y ∷ ys) ((i, e), h) (a, as') = (
  λ hit.
      let same : x.id ≡ k = sym i ∙ (==_iff _ _).0 hit in
      subst Q (sym (e (ap p same ∙ out))) (a ((==_iff _ _).1 same)),
  Kept-All Q p k out xs ys h as',
)

module _ (id : ℕ) (f : DownloadFile → DownloadFile)
    (keeps : (x : DownloadFile) → (f x).id ≡ x.id) where
  abbrev pub updated : List DownloadFile → List DownloadFile
  updated = map (λ x. if x.id == id then f x else x)

  pub updated-Kept : (xs : List DownloadFile) → Kept (λ i. i == id) xs (updated xs)
  updated-Kept [] = tt
  updated-Kept (x ∷ xs) = elim (Bool-cases (x.id == id)) [
    | inl e ↦ rw e ((keeps x, λ h. cc), updated-Kept xs)
    | inr e ↦ rw e ((refl, λ h. refl), updated-Kept xs)
  ]

  pub updated-status :
      (s : FileStatus)
      → ((x : DownloadFile) → (f x).status ≡ s)
      → (xs : List DownloadFile) → All (λ y. (y.id == id) ≡ true → y.status ≡ s) (updated xs)
  updated-status s h [] = tt
  updated-status s h (x ∷ xs) = elim (Bool-cases (x.id == id)) [
    | inl e ↦ rw e ((λ _. h x), updated-status s h xs)
    | inr e ↦ rw e ((λ k. cc), updated-status s h xs)
  ]
