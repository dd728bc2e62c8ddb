-- ===== src/Web/Title/Laws.antt =====
-- What the page of a title shows for the seasons that are ticked, against what a creation for them
-- makes.
use circleftp_jellyfin.Base.{
  ℕ, ◌≡◌, ◌≢◌, refl, sym, ap, subst, ◌∙◌, List, [], ◌∷◌, ◌++◌, true, false, not, map, filter, any,
  arith, if◌then◌else◌, All, Bool-cases, inl, inr,
}
use circleftp_jellyfin.Base.Text.{Text, text_eq, text_eq_iff, trim}
use circleftp_jellyfin.Downloads.Paths.{is_empty}
use circleftp_jellyfin.Web.Title.{
  toggle_season, join_comma, split_comma, seasons_parameter, to_string_array, previewed,
}

abbrev pub HasNoComma : Text → Type 0
HasNoComma = All (λ c. c ≢ b',')

split_comma-plain : (s : Text) → HasNoComma s → split_comma s ≡ s ∷ []
unfolding split_comma
split_comma-plain [] h = refl
split_comma-plain (c ∷ s) (p, h) = rw (split_comma-plain s h) (ground (arith, p))

-- A comma ends an entry.
split_comma-append : (s t : Text) → HasNoComma s → split_comma (s ++ b',' ∷ t) ≡ s ∷ split_comma t
unfolding split_comma
split_comma-append [] t h = refl
split_comma-append (c ∷ s) t (p, h) = rw (split_comma-append s t h) (ground (arith, p))

split_comma-join_comma :
    (s : Text) (ss : List Text)
    → HasNoComma s
    → All HasNoComma ss
    → split_comma (join_comma (s ∷ ss)) ≡ s ∷ ss
unfolding join_comma
split_comma-join_comma s [] h k = split_comma-plain s h
split_comma-join_comma s (t ∷ ss) h (k, r) =
    split_comma-append s (join_comma (t ∷ ss)) h ∙ ap (◌∷◌ s) (split_comma-join_comma t ss k r)

all_kept : (ss : List Text) → All (λ s. s ≢ []) ss → filter (λ s. not (is_empty s)) ss ≡ ss
all_kept [] h = refl
all_kept ([] ∷ ss) (p, h) = absurd (p refl)
all_kept ((c ∷ s) ∷ ss) (p, h) = ap (◌∷◌ (c ∷ s)) (all_kept ss h)

-- The seasons of a creation, where its schema accepts those that are ticked: it trims each and
-- refuses an empty one.
pub record IsParsed (selected seasons : List Text) : Type 0 where
  pub trimmed : seasons ≡ map trim selected
  pub nonempty : All (λ s. s ≢ []) seasons

join_comma-nonempty :
    (c : ℕ) (s : Text) (ss : List Text) → is_empty (join_comma ((c ∷ s) ∷ ss)) ≡ false
unfolding join_comma
join_comma-nonempty c s [] = refl
join_comma-nonempty c s (t ∷ ss) = refl

-- For seasons whose names hold no comma, the page is asked for the seasons that a creation has.
pub previewed_lem :
    (selected seasons : List Text)
    → IsParsed selected seasons
    → All HasNoComma selected
    → previewed selected ≡ seasons
unfolding previewed seasons_parameter to_string_array join_comma
previewed_lem [] seasons k h = sym k.trimmed
previewed_lem ([] ∷ ss) seasons k h =
    absurd ((subst (All (λ s. s ≢ [])) k.trimmed k.nonempty).0 refl)
previewed_lem ((c ∷ s) ∷ ss) seasons k (h, hs) =
    rw (join_comma-nonempty c s ss, split_comma-join_comma (c ∷ s) ss h hs)
      (ap (filter (λ entry. not (is_empty entry))) (sym k.trimmed) ∙ all_kept seasons k.nonempty)

is_empty-trim : (s : Text) → trim s ≢ [] → is_empty (trim s) ≡ false
is_empty-trim s h =
    elim (trim s) as (λ t. t ≢ [] → is_empty t ≡ false) [
      | [] ↦ λ k. absurd (k refl)
      | c ∷ t ↦ λ k. refl
    ]
      h

-- A season whose name holds a comma between two names reaches the page as two other seasons.
pub previewed-comma :
    (s t : Text)
    → HasNoComma s
    → HasNoComma t
    → trim s ≢ []
    → trim t ≢ []
    → previewed ((s ++ b',' ∷ t) ∷ []) ≡ trim s ∷ trim t ∷ []
unfolding previewed seasons_parameter to_string_array join_comma
previewed-comma [] t h k p q = absurd (p refl)
previewed-comma (c ∷ s) t h k p q = rw (
  split_comma-append (c ∷ s) t h,
  split_comma-plain t k,
  is_empty-trim (c ∷ s) p,
  is_empty-trim t q,
)

module _ (name : Text) where
  any-append :
      (n : Text) (xs : List Text)
      → any (text_eq n) (xs ++ name ∷ []) ≡ (if any (text_eq n) xs then true else text_eq n name)
  any-append n [] = ground arith
  any-append n (x ∷ xs) = ground (arith, any-append n xs)

  any-without :
      (n : Text) (xs : List Text)
      → any (text_eq n) (filter (λ item. not (text_eq item name)) xs)
        ≡ (if text_eq n name then false else any (text_eq n) xs)
  any-without n [] = ground arith
  any-without n (x ∷ xs) =
      ground (arith, any-without n xs, text_eq_iff n x, text_eq_iff x name, text_eq_iff n name)

  -- A tick changes whether its season is chosen, and no other.
  pub toggle_season_lem :
      (n : Text) (current : List Text)
      → any (text_eq n) (toggle_season name current)
        ≡ (if text_eq n name then not (any (text_eq n) current) else any (text_eq n) current)
  unfolding toggle_season
  toggle_season_lem n current = elim (Bool-cases (any (text_eq name) current)) [
    | inl e ↦ ground (arith, e, any-without n current, text_eq_iff n name)
    | inr e ↦ ground (arith, e, any-append n current, text_eq_iff n name)
  ]
