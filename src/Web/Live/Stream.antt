-- ===== src/Web/Live/Stream.antt =====
-- routes/events.ts and useDownloads.tsx: a stream begins with a snapshot of the table.
use circleftp_jellyfin.Base.{
  ℕ, zero, suc, ◌≤◌, ◌≡◌, refl, sym, ap, ◌∙◌, List, [], ◌∷◌, some, Bool, false, ◌||◌, if◌then◌else◌,
  ◌==◌, ==_iff, filter, take, length, count, any, Bool-cases, inl, inr, arith,
}
use circleftp_jellyfin.Base.Text.{Text}
use circleftp_jellyfin.Circleftp.Text.Names.{Platform}
use circleftp_jellyfin.Downloads.Model.{Download, Downloads, find_download}
use circleftp_jellyfin.Downloads.Service.{State, Event, snapshot}
use circleftp_jellyfin.Downloads.Service.Requests.{has_id, IdsDiffer}
use circleftp_jellyfin.Downloads.Listing.{
  every, passes, precedes, insert_row, sort_rows, ordered, list_downloads,
}
use circleftp_jellyfin.Downloads.Listing.Cut.{sort_rows-count}
use circleftp_jellyfin.Routes.Downloads.{Request, serve_all}
use circleftp_jellyfin.Routes.Downloads.Table.{AllFresh}
use circleftp_jellyfin.Web.Live.{apply_events}
use circleftp_jellyfin.Web.Live.Mirror.{Agree, serve_all-Mirrors}

-- `listDownloads('all', 50)`
abbrev pub first_snapshot : Downloads → Event
first_snapshot ds = snapshot (list_downloads every 50 ds)

find-insert :
    (k : ℕ) (d : Download) (xs : Downloads)
    → has_id xs d.id ≡ false
    → find_download k (insert_row d xs) ≡ find_download k (d ∷ xs)
unfolding insert_row
find-insert k d [] h = refl
find-insert k d (x ∷ xs) h = elim (Bool-cases (precedes x d)) [
  | inl e ↦
      rw (insert_row, e)
        (ground (
          arith,
          find-insert k d xs (ground arith),
          ==_iff x.id k,
          ==_iff d.id k,
          ==_iff x.id d.id,
        ))
  | inr e ↦ rw (insert_row, e) refl
]

any-insert :
    (p : Download → Bool) (d : Download) (xs : Downloads) → any p (insert_row d xs) ≡ any p (d ∷ xs)
unfolding insert_row
any-insert p d [] = refl
any-insert p d (x ∷ xs) = elim (Bool-cases (precedes x d)) [
  | inl e ↦ rw (insert_row, e) (ground (arith, any-insert p d xs))
  | inr e ↦ rw (insert_row, e) refl
]

any-sort : (p : Download → Bool) (ds : Downloads) → any p (sort_rows ds) ≡ any p ds
unfolding sort_rows
any-sort p [] = refl
any-sort p (d ∷ ds) = any-insert p d (sort_rows ds) ∙ ap (λ b. p d || b) (any-sort p ds)

sort_rows-Agree : (ds : Downloads) → IdsDiffer ds → Agree (sort_rows ds) ds
unfolding sort_rows
sort_rows-Agree [] u k = refl
sort_rows-Agree (d ∷ ds) (out, u) k =
    find-insert k d (sort_rows ds) (any-sort (λ x. x.id == d.id) ds ∙ out)
    ∙ ap (λ o. if d.id == k then some d else o) (sort_rows-Agree ds u k)

filter-every : (ds : Downloads) → filter (passes every) ds ≡ ds
filter-every [] = refl
filter-every (d ∷ ds) = ap (◌∷◌ d) (filter-every ds)

count-every : (ds : Downloads) → count (passes every) ds ≡ length ds
count-every [] = refl
count-every (d ∷ ds) = ap suc (count-every ds)

take_all : (n : ℕ) (ds : Downloads) → length ds ≤ n → take n ds ≡ ds
take_all zero [] h = refl
take_all zero (d ∷ ds) h = absurd (omega arith)
take_all (suc n) [] h = refl
take_all (suc n) (d ∷ ds) h = ap (◌∷◌ d) (take_all n ds (omega arith))

pub list_downloads-Agree :
    (limit : ℕ) (ds : Downloads)
    → IdsDiffer ds
    → length ds ≤ limit
    → Agree (list_downloads every limit ds) ds
unfolding list_downloads ordered
list_downloads-Agree limit ds u h k =
    let same : length (sort_rows ds) ≡ length ds =
      sym (count-every (sort_rows ds)) ∙ sort_rows-count (passes every) ds ∙ count-every ds in
    ap (λ rows. find_download k (take limit (sort_rows rows))) (filter-every ds)
    ∙ ap (find_download k) (take_all limit (sort_rows ds) (omega (arith, same)))
    ∙ sort_rows-Agree ds u k

-- Where a stream begins with the snapshot of a table of at most fifty downloads with different
-- keys, the list of the browser agrees with the table, download for download, after whatever
-- requests are served while it is open, once it has folded the events of the stream.
pub stream-Agree :
    (p : Platform) (root : Text) (rs : List (ℕ × Request)) (current : Downloads) (s : State)
    → s.events ≡ []
    → IdsDiffer s.downloads
    → length s.downloads ≤ 50
    → AllFresh p root rs s
    → Agree
        (apply_events current (first_snapshot s.downloads ∷ (serve_all p root rs s).events))
        (serve_all p root rs s).downloads
unfolding apply_events
stream-Agree p root rs current s e u h f =
    let listed = list_downloads every 50 s.downloads in
    serve_all-Mirrors p root rs listed s f (λ k.
      ap (λ es. find_download k (apply_events listed es)) e
      ∙ list_downloads-Agree 50 s.downloads u h k)
