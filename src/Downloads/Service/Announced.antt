-- ===== src/Downloads/Service/Announced.antt =====
-- What the events of downloads/service.ts say: each is the change of the table that it follows.
use circleftp_jellyfin.Base.{
  ℕ, ◌≡◌, refl, sym, ap, ◌∙◌, subst, [], ◌∷◌, ◌++◌, Option, none, some, Bool, false, not,
  if◌then◌else◌, ◌==◌, ==_iff, filter, arith, Bool-cases, Option-cases, inl, inr,
}
use circleftp_jellyfin.Base.Text.{Text}
use circleftp_jellyfin.Base.Result.{Result, ok, err}
use circleftp_jellyfin.Circleftp.Plan.{DownloadPlan}
use circleftp_jellyfin.Downloads.Model.{
  Download, Downloads, find_download, update_download, is_queued,
}
use circleftp_jellyfin.Downloads.Service.{
  State, Event, snapshot, created, progress, finished, deleted, heartbeat, CreateOptions, Keys,
  publish_download, create_download, new_download, cancel_queued, flag_cancel, request_cancel,
  requeue, retry_download, delete_download,
}
use circleftp_jellyfin.Downloads.Service.Requests.{has_id, find-id}

-- What an event says of one download, by its id.
abbrev pub seen : Event → ℕ → Option Download → Option Download
seen (snapshot ds) id before = find_download id ds
seen (created d) id before = if d.id == id then some d else before
seen (progress d) id before = if d.id == id then some d else before
seen (finished d) id before = if d.id == id then some d else before
seen (deleted i) id before = if i == id then none else before
seen (heartbeat at) id before = before

-- The change announced: one event more, and the table as the event says.
pub record Announces (s s' : State) (e : Event) : Type 0 where
  pub events : s'.events ≡ s.events ++ e ∷ []
  pub found : (id : ℕ) → find_download id s'.downloads ≡ seen e id (find_download id s.downloads)

pub find-filter :
    (i id : ℕ) (xs : Downloads)
    → find_download id (filter (λ x. not (x.id == i)) xs)
      ≡ (if i == id then none else find_download id xs)
find-filter i id [] = ground arith
find-filter i id (x ∷ xs) = ground (arith, find-filter i id xs)

pub find-append :
    (ds : Downloads) (d : Download) (id : ℕ)
    → has_id ds d.id ≡ false
    → find_download id (ds ++ d ∷ []) ≡ (if d.id == id then some d else find_download id ds)
find-append [] d id h = refl
find-append (x ∷ ds) d id h =
    ground
      (arith, find-append ds d id (ground arith), ==_iff x.id id, ==_iff d.id id, ==_iff x.id d.id)

module _ (id : ℕ) (f : Download → Download) (keeps : (d : Download) → (f d).id ≡ d.id) where
  find-update_other :
      (ds : Downloads) (k : ℕ)
      → (id == k) ≡ false
      → find_download k (update_download id f ds) ≡ find_download k ds
  find-update_other [] k h = refl
  find-update_other (d ∷ ds) k h = ground (arith, find-update_other ds k, keeps d)

  find-update :
      (ds : Downloads) (d : Download)
      → find_download id ds ≡ some d
      → find_download id (update_download id f ds) ≡ some (f d)
  find-update [] d h = absurd (cc)
  find-update (x ∷ ds) d h = elim (Bool-cases (x.id == id)) [
    | inl e ↦
        let same : x ≡ d = ground arith in
        rw (e, ap (λ i. i == id) (keeps x) ∙ e) (ap (λ y. some (f y)) same)
    | inr e ↦ rw (e, e) (find-update ds d (ground arith))
  ]

  -- An update that is published.
  update-Announces :
      (s : State) (d : Download)
      → find_download id s.downloads ≡ some d
      → Announces s
          (publish_download id progress (record s { downloads = update_download id f s.downloads }))
          (progress (f d))
  unfolding publish_download
  update-Announces s d h =
      rw (publish_download, find-update s.downloads d h) (record { events = refl; found = found })
    where
      found :
          (k : ℕ)
          → find_download k (update_download id f s.downloads)
            ≡ (if (f d).id == k then some (f d) else find_download k s.downloads)
      found k = elim (Bool-cases (id == k)) [
        | inl e ↦
            subst
              (λ j.
                find_download j (update_download id f s.downloads)
                ≡ (if (f d).id == j then some (f d) else find_download j s.downloads))
              ((==_iff id k).0 e)
              (ground (arith, find-update s.downloads d h, keeps d, find-id id s.downloads d h))
        | inr e ↦
            ground (arith, find-update_other s.downloads k e, keeps d, find-id id s.downloads d h)
      ]

-- The state after a request that is accepted.
create_result :
    (o : CreateOptions) (fetched : Result (Text × DownloadPlan)) (keys : Keys) (now : ℕ)
    (s s' : State)
    → create_download o fetched keys now s ≡ ok s'
    → (row : Download) × (row.id ≡ keys.download)
      × (record s { downloads = s.downloads ++ row ∷ []; events = s.events ++ created row ∷ [] }
          ≡ s')
unfolding create_download
create_result o (err e) keys now s s' h = ground arith
create_result o (ok (title, plan)) keys now s s' h =
    (new_download o title plan keys now, refl, ground arith)

cancel_result :
    (id now : ℕ) (s s' : State)
    → request_cancel id now s ≡ ok s'
    → (d : Download) × (find_download id s.downloads ≡ some d)
      × (publish_download id progress (record s {
        downloads =
            update_download id
              (if is_queued d.status then cancel_queued now else flag_cancel)
              s.downloads;
      })
          ≡ s')
unfolding request_cancel
cancel_result id now s s' h = elim (Option-cases (find_download id s.downloads)) [
  | inl e ↦ ground arith
  | inr (d, e) ↦ (d, e, ground arith)
]

retry_result :
    (id : ℕ) (s s' : State)
    → retry_download id s ≡ ok s'
    → (d : Download) × (find_download id s.downloads ≡ some d)
      × (publish_download id progress
            (record s { downloads = update_download id requeue s.downloads })
          ≡ s')
unfolding retry_download
retry_result id s s' h = elim (Option-cases (find_download id s.downloads)) [
  | inl e ↦ ground arith
  | inr (d, e) ↦ (d, e, ground arith)
]

delete_result :
    (root : Text) (id : ℕ) (delete_files : Bool) (s s' : State)
    → delete_download root id delete_files s ≡ ok s'
    → (s'.downloads ≡ filter (λ d. not (d.id == id)) s.downloads)
      × (s'.events ≡ s.events ++ deleted id ∷ [])
unfolding delete_download
delete_result root id delete_files s s' h = (ground arith, ground arith)

-- Every accepted request announces its change.
pub create_download-Announces :
    (o : CreateOptions) (fetched : Result (Text × DownloadPlan)) (keys : Keys) (now : ℕ)
    (s s' : State)
    → has_id s.downloads keys.download ≡ false
    → create_download o fetched keys now s ≡ ok s'
    → (e : Event) × Announces s s' e
create_download-Announces o fetched keys now s s' fresh h =
    let (row, key, e) = create_result o fetched keys now s s' h in
    (
      created row,
      subst (λ x. Announces s x (created row)) e
          (record {
            events = refl;
            found = λ id.
                find-append s.downloads row id
                  (subst (λ k. has_id s.downloads k ≡ false) (sym key) fresh);
          }),
    )

pub request_cancel-Announces :
    (id now : ℕ) (s s' : State) → request_cancel id now s ≡ ok s' → (e : Event) × Announces s s' e
unfolding cancel_queued flag_cancel
request_cancel-Announces id now s s' h =
    let (d, found, e) = cancel_result id now s s' h in
    let change : Download → Download =
      if is_queued d.status then cancel_queued now else flag_cancel in
    (
      progress (change d),
      subst (λ x. Announces s x (progress (change d))) e
          (update-Announces id change (λ x. ground arith) s d found),
    )

pub retry_download-Announces :
    (id : ℕ) (s s' : State) → retry_download id s ≡ ok s' → (e : Event) × Announces s s' e
unfolding requeue
retry_download-Announces id s s' h =
    let (d, found, e) = retry_result id s s' h in
    (
      progress (requeue d),
      subst (λ x. Announces s x (progress (requeue d))) e
          (update-Announces id requeue (λ x. refl) s d found),
    )

pub delete_download-Announces :
    (root : Text) (id : ℕ) (delete_files : Bool) (s s' : State)
    → delete_download root id delete_files s ≡ ok s'
    → (e : Event) × Announces s s' e
delete_download-Announces root id delete_files s s' h =
    let (downloads, events) = delete_result root id delete_files s s' h in
    (
      deleted id,
      record {
        events = events;
        found = λ k. ap (find_download k) downloads ∙ find-filter id k s.downloads;
      },
    )
