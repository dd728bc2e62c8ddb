-- ===== src/Circleftp/Plan/Duplicates.antt =====
-- `deduplicatePaths` of circleftp/plan.ts: what it changes of a plan, and what it misses.
use circleftp_jellyfin.Base.{
  ℕ, ◌+◌, ◌≡◌, refl, sym, ap, List, [], ◌∷◌, none, some, Bool, false, arith, any, map, All,
  if◌then◌else◌, Bool-cases, inl, inr, ◌∙◌,
}
use circleftp_jellyfin.Base.Text.{Text, text_eq, text_eq_refl, text_eq_iff}
use circleftp_jellyfin.Circleftp.Plan.{
  PlannedFile, suffix_path, Seen, seen_count, seen_set, deduplicate_from, deduplicate_paths,
}

abbrev has_path : Text → List PlannedFile → Bool
has_path path = any (λ f. text_eq path f.rel_path)

-- No path twice.
abbrev pub PathsDiffer : List PlannedFile → Type 0
PathsDiffer [] = Unit
PathsDiffer (f ∷ fs) = (has_path f.rel_path fs ≡ false) × PathsDiffer fs

set-count :
    (path other : Text) (n : ℕ) (seen : Seen)
    → text_eq path other ≡ false
    → seen_count other (seen_set path n seen) ≡ seen_count other seen
unfolding seen_count seen_set
set-count path other n [] h = rw h refl
set-count path other n ((key, m) ∷ seen) h = elim (Bool-cases (text_eq key path)) [
  | inl hit ↦
      let this : text_eq key other ≡ false =
        ground (arith, text_eq_iff key path, text_eq_iff key other, text_eq_iff path other) in
      rw (hit, this) refl
  | inr miss ↦
      rw miss (ap (λ c. if text_eq key other then some m else c) (set-count path other n seen h))
]

set-All :
    (path : Text) (n : ℕ) (seen : Seen) (fs : List PlannedFile)
    → has_path path fs ≡ false
    → All (λ f. seen_count f.rel_path seen ≡ none) fs
    → All (λ f. seen_count f.rel_path (seen_set path n seen) ≡ none) fs
set-All path n seen [] h a = tt
set-All path n seen (f ∷ fs) h (e, a) =
    (set-count path f.rel_path n seen (ground arith) ∙ e, set-All path n seen fs (ground arith) a)

fresh_path :
    (seen : Seen) (f : PlannedFile) (fs : List PlannedFile)
    → seen_count f.rel_path seen ≡ none
    → deduplicate_from seen (f ∷ fs) ≡ f ∷ deduplicate_from (seen_set f.rel_path 1 seen) fs
unfolding deduplicate_from
fresh_path seen f fs e = rw (deduplicate_from, e) refl

abbrev renamed : PlannedFile → ℕ → PlannedFile
renamed f n = record f { rel_path = suffix_path f.rel_path (n + 1) }

repeated_path :
    (seen : Seen) (f : PlannedFile) (fs : List PlannedFile) (n : ℕ)
    → seen_count f.rel_path seen ≡ some n
    → deduplicate_from seen (f ∷ fs)
      ≡ renamed f n ∷ deduplicate_from (seen_set f.rel_path (n + 1) seen) fs
unfolding deduplicate_from
repeated_path seen f fs n e = rw (deduplicate_from, e) refl

deduplicate_from-eq_self :
    (seen : Seen) (fs : List PlannedFile)
    → All (λ f. seen_count f.rel_path seen ≡ none) fs
    → PathsDiffer fs
    → deduplicate_from seen fs ≡ fs
unfolding deduplicate_from
deduplicate_from-eq_self seen [] a d = refl
deduplicate_from-eq_self seen (f ∷ fs) (e, a) (out, d) =
    fresh_path seen f fs e
    ∙ (ap (◌∷◌ f) (
        deduplicate_from-eq_self (seen_set f.rel_path 1 seen) fs
          (set-All f.rel_path 1 seen fs out a) d))

unseen-All : (fs : List PlannedFile) → All (λ f. seen_count f.rel_path [] ≡ none) fs
unfolding seen_count
unseen-All [] = tt
unseen-All (f ∷ fs) = (refl, unseen-All fs)

-- A plan in which no path stands twice is left as it is.
pub deduplicate_paths-eq_self : (fs : List PlannedFile) → PathsDiffer fs → deduplicate_paths fs ≡ fs
unfolding deduplicate_paths deduplicate_from
deduplicate_paths-eq_self fs d = deduplicate_from-eq_self [] fs (unseen-All fs) d

same_count : (path other : Text) → path ≡ other → seen_count other (seen_set path 1 []) ≡ some 1
unfolding seen_count seen_set
same_count path other e = rw (e, text_eq_refl other) refl

third_count :
    (f g h : PlannedFile)
    → g.rel_path ≡ f.rel_path
    → text_eq f.rel_path h.rel_path ≡ false
    → seen_count h.rel_path (seen_set g.rel_path 2 (seen_set f.rel_path 1 [])) ≡ none
unfolding seen_count
third_count f g h same apart =
    set-count g.rel_path h.rel_path 2 (seen_set f.rel_path 1 []) (rw same apart)
    ∙ set-count f.rel_path h.rel_path 1 [] apart

-- Where a third file already has the path that the second of two equal paths is given, and that
-- path is another one, both end with it.
pub deduplicate_paths-collision :
    (f g h : PlannedFile)
    → g.rel_path ≡ f.rel_path
    → h.rel_path ≡ suffix_path f.rel_path 2
    → text_eq f.rel_path h.rel_path ≡ false
    → map (λ x. x.rel_path) (deduplicate_paths (f ∷ g ∷ h ∷ []))
      ≡ f.rel_path ∷ h.rel_path ∷ h.rel_path ∷ []
unfolding deduplicate_paths deduplicate_from
deduplicate_paths-collision f g h same taken apart =
    let second = same_count f.rel_path g.rel_path (sym same) in
    let third = third_count f g h same apart in
    let second_round = repeated_path (seen_set f.rel_path 1 []) g (h ∷ []) 1 second in
    let third_round = fresh_path (seen_set g.rel_path 2 (seen_set f.rel_path 1 [])) h [] third in
    ap (map (λ x. x.rel_path)) (
      fresh_path [] f (g ∷ h ∷ []) (unseen-All (f ∷ [])).0
      ∙ ap (◌∷◌ f) (second_round ∙ ap (◌∷◌ (renamed g 1)) third_round))
    ∙ ap (λ path. f.rel_path ∷ path ∷ h.rel_path ∷ []) (ap (λ p. suffix_path p 2) same ∙ sym taken)
