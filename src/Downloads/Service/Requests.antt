-- ===== src/Downloads/Service/Requests.antt =====
-- The requests of downloads/service.ts over the whole table: what they keep, what they refuse, and
-- when one title is in flight twice.
use circleftp_jellyfin.Base.{
  ℕ, suc, ◌≡◌, refl, sym, subst, [], ◌∷◌, ◌++◌, some, Bool, true, false, arith, not, if◌then◌else◌,
  ◌==◌, ==_iff, All, any, count, filter, Bool-cases, Option-cases, inl, inr,
}
use circleftp_jellyfin.Base.Text.{Text}
use circleftp_jellyfin.Base.Result.{Result, ok, err}
use circleftp_jellyfin.Circleftp.Plan.{DownloadPlan}
use circleftp_jellyfin.Downloads.Model.{
  Download, Downloads, is_active_status, is_queued, find_download, update_download,
}
use circleftp_jellyfin.Downloads.Paths.{is_empty}
use circleftp_jellyfin.Downloads.Service.{
  State, Event, progress, CreateOptions, Keys, new_download, is_in_flight, publish_download,
  create_download, cancel_queued, flag_cancel, request_cancel, requeue, retry_download,
  delete_download,
}

-- The primary key.
abbrev pub has_id : Downloads → ℕ → Bool
has_id ds i = any (λ d. d.id == i) ds

abbrev pub IdsDiffer : Downloads → Type 0
IdsDiffer [] = Unit
IdsDiffer (d ∷ ds) = (has_id ds d.id ≡ false) × IdsDiffer ds

-- `publishDownload` reads only.
pub publish-downloads :
    (id : ℕ) (event : Download → Event) (s : State)
    → (publish_download id event s).downloads ≡ s.downloads
unfolding publish_download
publish-downloads id event s = ground arith

update_absent :
    (id : ℕ) (f : Download → Download) (ds : Downloads)
    → has_id ds id ≡ false
    → update_download id f ds ≡ ds
update_absent id f [] h = refl
update_absent id f (d ∷ ds) h = ground (arith, update_absent id f ds)

-- A predicate of all rows survives the update of the row that was found.
module _ {ℓ} (P : Download → Type ℓ) (id : ℕ) (f : Download → Download) where
  pub update_found-All :
      (ds : Downloads) (d0 : Download)
      → find_download id ds ≡ some d0
      → IdsDiffer ds
      → P (f d0)
      → All P ds
      → All P (update_download id f ds)
  update_found-All [] d0 e u q a = tt
  update_found-All (d ∷ ds) d0 e (out, u) q (p, a) = elim (Bool-cases (d.id == id)) [
    | inl hit ↦
        let this : d ≡ d0 = ground arith in
        let same : has_id ds id ≡ false =
          subst (λ i. has_id ds i ≡ false) ((==_iff _ _).0 hit) out in
        rw (hit, update_absent id f ds same) (subst (λ x. P (f x)) (sym this) q, a)
    | inr miss ↦ rw miss (p, update_found-All ds d0 (ground arith) u q a)
  ]

pub find-All {ℓ} :
    (P : Download → Type ℓ) (id : ℕ) (ds : Downloads) (d : Download)
    → find_download id ds ≡ some d
    → All P ds
    → P d
find-All P id [] d e a = cc
find-All P id (x ∷ ds) d e (p, a) = elim (Bool-cases (x.id == id)) [
  | inl hit ↦ let this : x ≡ d = ground arith in subst P this p
  | inr miss ↦ find-All P id ds d (ground arith) a
]

pub find-id : (id : ℕ) (ds : Downloads) (d : Download) → find_download id ds ≡ some d → d.id ≡ id
find-id id [] d e = cc
find-id id (x ∷ ds) d e = ground (arith, find-id id ds d)

-- How many jobs of a title are QUEUED or RUNNING.
abbrev pub in_flight_count : ℕ → Downloads → ℕ
in_flight_count post_id = count (is_in_flight post_id)

pub update_found-count :
    (post_id id : ℕ) (f : Download → Download) (ds : Downloads) (d0 : Download)
    → find_download id ds ≡ some d0
    → IdsDiffer ds
    → is_in_flight post_id d0 ≡ false
    → is_in_flight post_id (f d0) ≡ true
    → in_flight_count post_id (update_download id f ds) ≡ suc (in_flight_count post_id ds)
update_found-count post_id id f [] d0 e u no_before yes_after = cc
update_found-count post_id id f (d ∷ ds) d0 e (out, u) no_before yes_after =
    elim (Bool-cases (d.id == id)) [
      | inl hit ↦
          let this : d ≡ d0 = ground arith in
          let same : has_id ds id ≡ false =
            subst (λ i. has_id ds i ≡ false) ((==_iff _ _).0 hit) out in
          let before : is_in_flight post_id d ≡ false =
            subst (λ x. is_in_flight post_id x ≡ false) (sym this) no_before in
          let after : is_in_flight post_id (f d) ≡ true =
            subst (λ x. is_in_flight post_id (f x) ≡ true) (sym this) yes_after in
          rw (hit, update_absent id f ds same) (ground arith)
      | inr miss ↦ rw miss (
          ground
            (arith, update_found-count post_id id f ds d0 (ground arith) u no_before yes_after))
    ]

-- What a cancellation that is accepted has done to the table.
pub request_cancel_inv :
    (id now : ℕ) (s s' : State)
    → request_cancel id now s ≡ ok s'
    → (d : Download) × (find_download id s.downloads ≡ some d)
      × (is_active_status d.status ≡ true)
      × (s'.downloads
          ≡ update_download id
              (if is_queued d.status then cancel_queued now else flag_cancel)
              s.downloads)
unfolding request_cancel
request_cancel_inv id now s s' h = elim (Option-cases (find_download id s.downloads)) [
  | inl e ↦ ground arith
  | inr (d, e) ↦ elim (Bool-cases (is_active_status d.status)) [
    | inl a ↦
        let change : Download → Download =
          if is_queued d.status then cancel_queued now else flag_cancel in
        let after : State = record s { downloads = update_download id change s.downloads } in
        (d, e, a, ground (arith, publish-downloads id progress after))
    | inr a ↦ ground arith
  ]
]

-- What a retry that is accepted has done to the table.
pub retry_download_inv :
    (id : ℕ) (s s' : State)
    → retry_download id s ≡ ok s'
    → (d : Download) × (find_download id s.downloads ≡ some d)
      × (is_active_status d.status ≡ false)
      × (s'.downloads ≡ update_download id requeue s.downloads)
unfolding retry_download
retry_download_inv id s s' h = elim (Option-cases (find_download id s.downloads)) [
  | inl e ↦ ground arith
  | inr (d, e) ↦ elim (Bool-cases (is_active_status d.status)) [
    | inl a ↦ ground arith
    | inr a ↦
        let after : State = record s { downloads = update_download id requeue s.downloads } in
        (d, e, a, ground (arith, publish-downloads id progress after))
  ]
]

-- What a creation that is accepted has done to the table.
pub create_download_inv :
    (o : CreateOptions) (fetched : Result (Text × DownloadPlan)) (keys : Keys) (now : ℕ)
    (s s' : State)
    → create_download o fetched keys now s ≡ ok s'
    → (any (is_in_flight o.post_id) s.downloads ≡ false)
      × ((title : Text) × (plan : DownloadPlan) × (s'.downloads
            ≡ s.downloads ++ new_download o title plan keys now ∷ []))
unfolding create_download
create_download_inv o (err e) keys now s s' h = ground arith
create_download_inv o (ok (title, plan)) keys now s s' h =
    elim (Bool-cases (any (is_in_flight o.post_id) s.downloads)) [
      | inl e ↦ ground arith
      | inr e ↦ elim (Bool-cases (is_empty plan.files)) [
        | inl f ↦ ground arith
        | inr f ↦ (e, (title, plan, ground arith))
      ]
    ]

-- What a deletion that is accepted has done to the table.
pub delete_download_inv :
    (root : Text) (id : ℕ) (delete_files : Bool) (s s' : State)
    → delete_download root id delete_files s ≡ ok s'
    → s'.downloads ≡ filter (λ d. not (d.id == id)) s.downloads
unfolding delete_download
delete_download_inv root id delete_files s s' h =
    elim (Option-cases (find_download id s.downloads)) [
      | inl e ↦ ground arith
      | inr (d, e) ↦ elim (Bool-cases (is_active_status d.status)) [
        | inl a ↦ ground arith
        | inr a ↦ ground arith
      ]
    ]
