-- ===== src/Downloads/Listing/Cut.antt =====
-- Which downloads `listDownloads` of downloads/service.ts lists, and which its limit cuts off.
use circleftp_jellyfin.Base.{
  ℕ, zero, suc, ◌+◌, ◌≡◌, refl, sym, ap, ◌∙◌, [], ◌∷◌, Option, none, some, Bool, true, false,
  filter, take, drop, count, All, Bool-cases, inl, inr, arith, count-append, take-append-drop,
}
use circleftp_jellyfin.Downloads.Model.{Download, Downloads}
use circleftp_jellyfin.Downloads.Listing.{
  ListFilter, passes, finished_before, finished_by, precedes, insert_row, sort_rows, ordered,
  list_downloads,
}

-- b did not finish before a did; an unfinished download counts as finished before all others.
abbrev pub FinishedBy : Download → Download → Type 0
FinishedBy a b = finished_by a.finished_at b.finished_at ≡ true

finished_by_trans :
    (a b c : Option ℕ) → finished_by a b ≡ true → finished_by b c ≡ true → finished_by a c ≡ true
finished_by_trans none b none h k = refl
finished_by_trans none b (some n) h k = refl
finished_by_trans (some m) none c h k = ground arith
finished_by_trans (some m) (some n) none h k = ground arith
finished_by_trans (some m) (some n) (some o) h k = ground arith

finished_by_of_before : (a b : Option ℕ) → finished_before a b ≡ true → finished_by a b ≡ true
finished_by_of_before none none h = ground arith
finished_by_of_before none (some n) h = refl
finished_by_of_before (some m) none h = ground arith
finished_by_of_before (some m) (some n) h = ground arith

precedes-FinishedBy : (a b : Download) → precedes a b ≡ true → FinishedBy a b
precedes-FinishedBy a b h = elim (Bool-cases (finished_before a.finished_at b.finished_at)) [
  | inl e ↦ finished_by_of_before a.finished_at b.finished_at e
  | inr e ↦ ground arith
]

not_precedes-FinishedBy : (a b : Download) → precedes b a ≡ false → FinishedBy a b
not_precedes-FinishedBy a b h = ground arith

abbrev IsOrdered : Downloads → Type 0
IsOrdered [] = Unit
IsOrdered (d ∷ ds) = All (FinishedBy d) ds × IsOrdered ds

All-trans :
    (d x : Download) (xs : Downloads)
    → FinishedBy d x
    → All (FinishedBy x) xs
    → All (FinishedBy d) xs
All-trans d x [] h a = tt
All-trans d x (y ∷ ys) h (p, a) =
    (finished_by_trans d.finished_at x.finished_at y.finished_at h p, All-trans d x ys h a)

insert_row-All :
    (d x : Download) (xs : Downloads)
    → FinishedBy x d
    → All (FinishedBy x) xs
    → All (FinishedBy x) (insert_row d xs)
unfolding insert_row
insert_row-All d x [] h a = (h, tt)
insert_row-All d x (y ∷ ys) h (p, a) = elim (Bool-cases (precedes y d)) [
  | inl e ↦ rw (insert_row, e) (p, insert_row-All d x ys h a)
  | inr e ↦ rw (insert_row, e) (h, (p, a))
]

insert_row-IsOrdered : (d : Download) (xs : Downloads) → IsOrdered xs → IsOrdered (insert_row d xs)
unfolding insert_row
insert_row-IsOrdered d [] o = (tt, tt)
insert_row-IsOrdered d (x ∷ xs) (a, o) = elim (Bool-cases (precedes x d)) [
  | inl e ↦
      rw (insert_row, e)
        (insert_row-All d x xs (precedes-FinishedBy x d e) a, insert_row-IsOrdered d xs o)
  | inr e ↦
      let h = not_precedes-FinishedBy d x e in
      rw (insert_row, e) ((h, All-trans d x xs h a), (a, o))
]

sort_rows-IsOrdered : (ds : Downloads) → IsOrdered (sort_rows ds)
unfolding sort_rows
sort_rows-IsOrdered [] = tt
sort_rows-IsOrdered (d ∷ ds) = insert_row-IsOrdered d (sort_rows ds) (sort_rows-IsOrdered ds)

insert_row-count :
    (p : Download → Bool) (d : Download) (xs : Downloads)
    → count p (insert_row d xs) ≡ count p (d ∷ xs)
unfolding insert_row
insert_row-count p d [] = refl
insert_row-count p d (x ∷ xs) = elim (Bool-cases (precedes x d)) [
  | inl e ↦ rw (insert_row, e) (ground (arith, insert_row-count p d xs))
  | inr e ↦ rw (insert_row, e) refl
]

pub sort_rows-count : (p : Download → Bool) (ds : Downloads) → count p (sort_rows ds) ≡ count p ds
unfolding sort_rows
sort_rows-count p [] = refl
sort_rows-count p (d ∷ ds) =
    insert_row-count p d (sort_rows ds) ∙ ground (arith, sort_rows-count p ds)

All-drop : (P : Download → Type 0) (n : ℕ) (xs : Downloads) → All P xs → All P (drop n xs)
All-drop P zero xs a = a
All-drop P (suc n) [] a = tt
All-drop P (suc n) (x ∷ xs) (p, a) = All-drop P n xs a

take-drop-FinishedBy :
    (n : ℕ) (xs : Downloads) → IsOrdered xs → All (λ a. All (FinishedBy a) (drop n xs)) (take n xs)
take-drop-FinishedBy zero xs o = tt
take-drop-FinishedBy (suc n) [] o = tt
take-drop-FinishedBy (suc n) (x ∷ xs) (a, o) =
    (All-drop (FinishedBy x) n xs a, take-drop-FinishedBy n xs o)

-- What the limit cuts off.
abbrev pub cut_off : ListFilter → ℕ → Downloads → Downloads
cut_off f limit ds = drop limit (ordered f ds)

-- The list is the downloads that pass the filter but for those that the limit cuts off, which are
-- the ones that finished last: no download that is cut off finished before one that is listed.
pub list_downloads-cut :
    (f : ListFilter) (limit : ℕ) (ds : Downloads)
    → All (λ a. All (FinishedBy a) (cut_off f limit ds)) (list_downloads f limit ds)
      × ((p : Download → Bool)
          → count p (list_downloads f limit ds) + count p (cut_off f limit ds)
            ≡ count p (filter (passes f) ds))
unfolding list_downloads ordered
list_downloads-cut f limit ds =
    let rows = sort_rows (filter (passes f) ds) in
    (
      take-drop-FinishedBy limit rows (sort_rows-IsOrdered (filter (passes f) ds)),
      λ p.
          sym (count-append p (take limit rows) (drop limit rows))
          ∙ ap (count p) (take-append-drop limit rows)
          ∙ sort_rows-count p (filter (passes f) ds),
    )
