-- ===== src/System/Rows.antt =====
-- Which downloads are RUNNING, before and after a request.
use circleftp_jellyfin.Base.{
  ℕ, ◌≡◌, refl, sym, ap, subst, ◌∙◌, [], ◌∷◌, Option, none, some, Bool, false, if◌then◌else◌, ◌==◌,
  ==_iff, map, arith, Bool-cases, Option-cases, inl, inr, eq_of_some,
}
use circleftp_jellyfin.Base.Text.{Text}
use circleftp_jellyfin.Base.Result.{ok}
use circleftp_jellyfin.Circleftp.Text.Names.{Platform}
use circleftp_jellyfin.Downloads.Model.{
  Download, Downloads, find_download, update_download, is_running, is_active_status,
}
use circleftp_jellyfin.Downloads.Service.{
  State, new_download, cancel_queued, flag_cancel, requeue, delete_download,
}
use circleftp_jellyfin.Downloads.Service.Requests.{
  has_id, find-id, request_cancel_inv, retry_download_inv, create_download_inv, delete_download_inv,
}
use circleftp_jellyfin.Downloads.Service.Announced.{find-filter, find-append}
use circleftp_jellyfin.Routes.Downloads.{Request, create, cancel, retry, delete, planned, handle}
use circleftp_jellyfin.Routes.Downloads.Table.{IsFresh}

-- Whether the row that was found is RUNNING.
abbrev pub runs : Option Download → Bool
runs none = false
runs (some d) = is_running d.status

abbrev pub runs_at : ℕ → Downloads → Bool
runs_at id ds = runs (find_download id ds)

abbrev pub changed : (Download → Download) → Option Download → Option Download
changed g none = none
changed g (some d) = some (g d)

pub find-map :
    (g : Download → Download)
    → ((d : Download) → (g d).id ≡ d.id)
    → (k : ℕ) (ds : Downloads) → find_download k (map g ds) ≡ changed g (find_download k ds)
find-map g keeps k [] = refl
find-map g keeps k (d ∷ ds) = ground (arith, find-map g keeps k ds, keeps d)

pub absent : (k : ℕ) (ds : Downloads) → has_id ds k ≡ false → find_download k ds ≡ none
absent k [] h = refl
absent k (d ∷ ds) h = ground (arith, absent k ds)

-- An update of the row that was found, which starts and stops nothing.
update-runs_at :
    (id : ℕ) (f : Download → Download) (ds : Downloads) (d : Download)
    → ((x : Download) → (f x).id ≡ x.id)
    → find_download id ds ≡ some d
    → is_running (f d).status ≡ is_running d.status
    → (k : ℕ) → runs_at k (update_download id f ds) ≡ runs_at k ds
update-runs_at id f ds d keeps e same k =
    ap runs (find-map change (λ x. ground (arith, keeps x)) k ds) ∙ by_row (find_download k ds) refl
  where
    change : Download → Download
    change x = if x.id == id then f x else x

    by_row : (o : Option Download) → find_download k ds ≡ o → runs (changed change o) ≡ runs o
    by_row none found = refl
    by_row (some x) found = elim (Bool-cases (x.id == id)) [
      | inl hit ↦
          let this : k ≡ id = sym (find-id k ds x found) ∙ (==_iff x.id id).0 hit in
          let row : d ≡ x = eq_of_some (sym e ∙ ap (λ i. find_download i ds) (sym this) ∙ found) in
          rw hit (subst (λ y. is_running (f y).status ≡ is_running y.status) row same)
      | inr miss ↦ rw miss refl
    ]

created-runs :
    (row : Download) (k : ℕ) (ds : Downloads)
    → is_running row.status ≡ false
    → has_id ds row.id ≡ false
    → runs (if row.id == k then some row else find_download k ds) ≡ runs_at k ds
created-runs row k ds idle fresh = elim (Bool-cases (row.id == k)) [
  | inl hit ↦
      let none_yet : find_download k ds ≡ none =
        absent k ds (subst (λ i. has_id ds i ≡ false) ((==_iff row.id k).0 hit) fresh) in
      rw (hit, none_yet) idle
  | inr miss ↦ rw miss refl
]

-- A deletion removes a row that is over.
deleted-runs :
    (id k : ℕ) (ds : Downloads)
    → runs_at id ds ≡ false
    → runs (if id == k then none else find_download k ds) ≡ runs_at k ds
deleted-runs id k ds over = elim (Bool-cases (id == k)) [
  | inl hit ↦ rw hit (sym (ap (λ i. runs_at i ds) (sym ((==_iff id k).0 hit)) ∙ over))
  | inr miss ↦ rw miss refl
]

deleted_over :
    (root : Text) (id : ℕ) (delete_files : Bool) (s s' : State)
    → delete_download root id delete_files s ≡ ok s'
    → runs_at id s.downloads ≡ false
unfolding delete_download
deleted_over root id delete_files s s' h = elim (Option-cases (find_download id s.downloads)) [
  | inl e ↦ rw e refl
  | inr (d, e) ↦ elim (Bool-cases (is_active_status d.status)) [
    | inl a ↦ ground arith
    | inr a ↦ rw e (ground arith)
  ]
]

module _ (p : Platform) (root : Text) where
  pub handle-runs_at :
      (now : ℕ) (r : Request) (s s' : State)
      → IsFresh r s
      → handle p root now r s ≡ ok s'
      → (k : ℕ) → runs_at k s'.downloads ≡ runs_at k s.downloads
  unfolding handle cancel_queued flag_cancel requeue
  handle-runs_at now (create o answer keys) s s' (files, fresh) h k =
      let (free, (title, plan, e)) =
        create_download_inv o (planned p o.seasons answer) keys now s s' h in
      let row = new_download o title plan keys now in
      ap (runs_at k) e
      ∙ ap runs (find-append s.downloads row k fresh)
      ∙ created-runs row k s.downloads refl fresh
  handle-runs_at now (cancel id) s s' f h k =
      let (d, e, a, c) = request_cancel_inv id now s s' h in
      ap (runs_at k) c ∙ update-runs_at id _ s.downloads d (λ x. ground arith) e (ground arith) k
  handle-runs_at now (retry id) s s' f h k =
      let (d, e, a, c) = retry_download_inv id s s' h in
      ap (runs_at k) c ∙ update-runs_at id requeue s.downloads d (λ x. refl) e (ground arith) k
  handle-runs_at now (delete id delete_files) s s' f h k =
      ap (runs_at k) (delete_download_inv root id delete_files s s' h)
      ∙ ap runs (find-filter id k s.downloads)
      ∙ deleted-runs id k s.downloads (deleted_over root id delete_files s s' h)
