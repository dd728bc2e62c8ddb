-- ===== src/Circleftp/Search/Laws.antt =====
-- What circleftp/search.ts promises of its results.
use circleftp_jellyfin.Base.{
  ℕ, zero, suc, ◌+◌, ◌<◌, ◌≡◌, refl, ap, ◌∙◌, List, [], ◌∷◌, ◌++◌, Option, Bool, true, false, ltb,
  ◌==◌, filter, map, take, All, Bool-cases, inl, inr, arith, append-nil,
}
use circleftp_jellyfin.Base.Text.{Text}
use circleftp_jellyfin.Circleftp.Types.{RawPost}
use circleftp_jellyfin.Circleftp.Text.Names.{normalize_text}
use circleftp_jellyfin.Circleftp.Search.{
  TitleKind, Scored, candidates, scored_from, score_of, choose, weak_score, limit_of, result_of,
  rank,
}
use circleftp_jellyfin.Circleftp.Search.Bands.{
  band, bands, Later, IsNumbered, sort-bands, bands-last,
}

score_of-bound : (p : RawPost) (query : Text) → score_of p query < 5
unfolding score_of
score_of-bound p query = ground arith

scored_from-Later :
    (i order : ℕ) (query : Text) (ps : List RawPost)
    → i < order
    → All (Later i) (scored_from order query ps)
unfolding scored_from
scored_from-Later i order query [] l = tt
scored_from-Later i order query (p ∷ ps) l =
    (l, scored_from-Later i (order + 1) query ps (omega arith))

scored_from-IsNumbered :
    (order : ℕ) (query : Text) (ps : List RawPost) → IsNumbered 5 (scored_from order query ps)
unfolding scored_from
scored_from-IsNumbered order query [] = tt
scored_from-IsNumbered order query (p ∷ ps) = (
  score_of-bound p query,
  (
    scored_from-Later order (order + 1) query ps (omega arith),
    scored_from-IsNumbered (order + 1) query ps,
  ),
)

abbrev is_strong : Scored → Bool
is_strong e = ltb e.score weak_score

strong_at : (e : Scored) (k : ℕ) → (e.score == k) ≡ true → k < weak_score → is_strong e ≡ true
strong_at e k h l = ground arith

weak_at : (e : Scored) → (e.score == weak_score) ≡ true → is_strong e ≡ false
weak_at e h = ground arith

strong-band :
    (k : ℕ) (es ys : List Scored)
    → k < weak_score
    → filter is_strong (band k es ++ ys) ≡ band k es ++ filter is_strong ys
strong-band k [] ys l = refl
strong-band k (e ∷ es) ys l = elim (Bool-cases (e.score == k)) [
  | inl h ↦ rw (h, strong_at e k h l) (ap (◌∷◌ e) (strong-band k es ys l))
  | inr h ↦ rw h (strong-band k es ys l)
]

strong-weak : (es : List Scored) → filter is_strong (band weak_score es) ≡ []
strong-weak [] = refl
strong-weak (e ∷ es) = elim (Bool-cases (e.score == weak_score)) [
  | inl h ↦ rw (h, weak_at e h) (strong-weak es)
  | inr h ↦ rw h (strong-weak es)
]

strong-bands :
    (n k : ℕ) (es : List Scored)
    → k + n ≡ weak_score
    → filter is_strong (bands (suc n) k es) ≡ bands n k es
strong-bands zero k es h =
    ap (filter is_strong) (append-nil (band k es) ∙ ap (λ j. band j es) (omega arith))
    ∙ strong-weak es
strong-bands (suc n) k es h =
    strong-band k es (bands (suc n) (suc k) es) (omega arith)
    ∙ ap (λ r. band k es ++ r) (strong-bands n (suc k) es (omega arith))

-- What is chosen of the entries: the strong bands, or the first five of the weak one.
abbrev pub chosen : List Scored → List Scored
chosen es = elim (bands 4 0 es) [ [] ↦ take 5 (band weak_score es) | ◌∷◌ x xs ↦ x ∷ xs ]

choose-append :
    (strong weak all : List Scored)
    → filter is_strong all ≡ strong
    → all ≡ strong ++ weak
    → choose all ≡ elim strong [ [] ↦ take 5 weak | ◌∷◌ x xs ↦ x ∷ xs ]
unfolding choose
choose-append [] weak all e h = rw (choose, e) (ap (take 5) h)
choose-append (x ∷ xs) weak all e h = rw (choose, e) (ground arith)

choose-bands : (es : List Scored) → choose (bands 5 0 es) ≡ chosen es
choose-bands es =
    choose-append (bands 4 0 es) (band weak_score es) (bands 5 0 es) (strong-bands 4 0 es refl)
      (bands-last 4 0 es)

-- The results are those of the posts of the kind asked for, in bands of one score in the order
-- exact, prefix, contained, in the title, each as the upstream API ordered it, cut to the limit;
-- and only where these bands are empty, the first five of the rest.
pub rank-bands :
    (encode : Text → Text) (query : Text) (kind : Option TitleKind) (limit : Option ℕ)
    (posts : List (Option RawPost))
    → rank encode query kind limit posts
      ≡ map (result_of encode) (
          take
            (limit_of limit)
            (chosen (scored_from 0 (normalize_text query) (candidates kind posts))))
unfolding rank
rank-bands encode query kind limit posts =
    let es = scored_from 0 (normalize_text query) (candidates kind posts) in
    ap (λ xs. map (result_of encode) (take (limit_of limit) xs))
      (ap choose (
          sort-bands 5 es (scored_from-IsNumbered 0 (normalize_text query) (candidates kind posts)))
        ∙ choose-bands es)
