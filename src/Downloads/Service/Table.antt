-- ===== src/Downloads/Service/Table.antt =====
-- The table of downloads through the requests of downloads/service.ts: what they keep of it, and
-- when one title is in flight twice.
use circleftp_jellyfin.Base.{
  ℕ, suc, ◌≡◌, refl, sym, subst, [], ◌∷◌, ◌++◌, some, Bool, true, false, arith, not, if◌then◌else◌,
  ◌==◌, ==_iff, ==_refl, All, All-append, any, count-append, filter, Bool-cases, inl, inr,
}
use circleftp_jellyfin.Base.Text.{Text}
use circleftp_jellyfin.Base.Result.{Result, ok}
use circleftp_jellyfin.Circleftp.Plan.{DownloadPlan}
use circleftp_jellyfin.Downloads.Model.{
  Download, Downloads, is_active_status, is_queued, find_download, update_download,
}
use circleftp_jellyfin.Downloads.Service.{
  State, CreateOptions, Keys, new_download, is_in_flight, create_download, cancel_queued,
  flag_cancel, request_cancel, requeue, retry_download, delete_download,
}
use circleftp_jellyfin.Downloads.Service.Invariant.{
  IsConsistent, IsInjective, new_download-IsConsistent, cancel_queued-IsConsistent,
  flag_cancel-IsConsistent, requeue-IsConsistent,
}
use circleftp_jellyfin.Downloads.Service.Requests.{
  has_id, IdsDiffer, update_found-All, find-All, update_found-count, in_flight_count,
  request_cancel_inv, retry_download_inv, create_download_inv, delete_download_inv,
}

-- The table between two requests: consistent rows, no key twice.
pub record IsTable (ds : Downloads) : Type 0 where
  pub rows : All IsConsistent ds
  pub ids : IdsDiffer ds

module _ (id : ℕ) (f : Download → Download) (keeps : (d : Download) → (f d).id ≡ d.id) where
  has_id-update : (ds : Downloads) (k : ℕ) → has_id (update_download id f ds) k ≡ has_id ds k
  has_id-update [] k = refl
  has_id-update (d ∷ ds) k = ground (arith, has_id-update ds k, keeps d)

  IdsDiffer-update : (ds : Downloads) → IdsDiffer ds → IdsDiffer (update_download id f ds)
  IdsDiffer-update [] u = tt
  IdsDiffer-update (d ∷ ds) (out, u) =
      (ground (arith, has_id-update ds d.id, keeps d), IdsDiffer-update ds u)

  -- The update of the row that was found.
  pub update-IsTable :
      (ds : Downloads) (d : Download)
      → find_download id ds ≡ some d
      → IsConsistent (f d)
      → IsTable ds
      → IsTable (update_download id f ds)
  update-IsTable ds d e h t = record {
    rows = update_found-All IsConsistent id f ds d e t.ids h t.rows;
    ids = IdsDiffer-update ds t.ids;
  }

has_id-append :
    (ds : Downloads) (d : Download) (k : ℕ)
    → has_id ds k ≡ false
    → (d.id == k) ≡ false
    → has_id (ds ++ d ∷ []) k ≡ false
has_id-append [] d k h m = rw m refl
has_id-append (x ∷ ds) d k h m = ground (arith, has_id-append ds d k)

append-IdsDiffer :
    (ds : Downloads) (d : Download)
    → has_id ds d.id ≡ false
    → IdsDiffer ds
    → IdsDiffer (ds ++ d ∷ [])
append-IdsDiffer [] d h u = (refl, tt)
append-IdsDiffer (x ∷ ds) d h (out, u) = (
  has_id-append ds d x.id out (ground (arith, ==_iff d.id x.id, ==_iff x.id d.id)),
  append-IdsDiffer ds d (ground arith) u,
)

-- Whether a cancellation reaches a waiting job or a running one, the rows stay consistent.
pub request_cancel-IsTable :
    (id now : ℕ) (s s' : State)
    → IsTable s.downloads
    → request_cancel id now s ≡ ok s'
    → IsTable s'.downloads
unfolding cancel_queued flag_cancel
request_cancel-IsTable id now s s' t h =
    let (d, e, a, changed) = request_cancel_inv id now s s' h in
    let c = find-All IsConsistent id s.downloads d e t.rows in
    subst IsTable (sym changed) (
      update-IsTable id _ (λ x. cancelled-id x (is_queued d.status)) s.downloads d e (cancelled d c)
        t)
  where
    cancelled-id :
        (x : Download) (b : Bool) → ((if b then cancel_queued now else flag_cancel) x).id ≡ x.id
    cancelled-id x true = refl
    cancelled-id x false = refl

    cancelled :
        (d : Download)
        → IsConsistent d
        → IsConsistent ((if is_queued d.status then cancel_queued now else flag_cancel) d)
    cancelled d c = elim (Bool-cases (is_queued d.status)) [
      | inl q ↦ rw q (cancel_queued-IsConsistent now d (ground arith) c)
      | inr q ↦ rw q (flag_cancel-IsConsistent d c)
    ]

-- A retry keeps the table.
pub retry_download-IsTable :
    (id : ℕ) (s s' : State)
    → IsTable s.downloads
    → retry_download id s ≡ ok s'
    → IsTable s'.downloads
unfolding requeue
retry_download-IsTable id s s' t h =
    let (d, e, a, changed) = retry_download_inv id s s' h in
    let c = find-All IsConsistent id s.downloads d e t.rows in
    subst IsTable (sym changed)
      (update-IsTable id requeue (λ x. refl) s.downloads d e (requeue-IsConsistent d c) t)

-- A creation keeps the table.
pub create_download-IsTable :
    (o : CreateOptions) (fetched : Result (Text × DownloadPlan)) (keys : Keys) (now : ℕ)
    (s s' : State)
    → IsInjective keys.file
    → has_id s.downloads keys.download ≡ false
    → IsTable s.downloads
    → create_download o fetched keys now s ≡ ok s'
    → IsTable s'.downloads
create_download-IsTable o fetched keys now s s' files fresh t h =
    let (free, (title, plan, changed)) = create_download_inv o fetched keys now s s' h in
    let row = new_download o title plan keys now in
    subst IsTable (sym changed) (record {
      rows =
          All-append IsConsistent s.downloads (row ∷ []) t.rows
            (new_download-IsConsistent o title plan keys now files, tt);
      ids = append-IdsDiffer s.downloads row fresh t.ids;
    })

module _ (p : Download → Bool) where
  filter-All {ℓ} : (P : Download → Type ℓ) (ds : Downloads) → All P ds → All P (filter p ds)
  filter-All P [] a = tt
  filter-All P (d ∷ ds) (x, a) = elim (Bool-cases (p d)) [
    | inl e ↦ rw e (x, filter-All P ds a)
    | inr e ↦ rw e (filter-All P ds a)
  ]

  has_id-filter : (ds : Downloads) (k : ℕ) → has_id ds k ≡ false → has_id (filter p ds) k ≡ false
  has_id-filter [] k h = refl
  has_id-filter (d ∷ ds) k h = ground (arith, has_id-filter ds k)

  filter-IdsDiffer : (ds : Downloads) → IdsDiffer ds → IdsDiffer (filter p ds)
  filter-IdsDiffer [] u = tt
  filter-IdsDiffer (d ∷ ds) (out, u) = elim (Bool-cases (p d)) [
    | inl e ↦ rw e (has_id-filter ds d.id out, filter-IdsDiffer ds u)
    | inr e ↦ rw e (filter-IdsDiffer ds u)
  ]

-- A deletion keeps the table.
pub delete_download-IsTable :
    (root : Text) (id : ℕ) (delete_files : Bool) (s s' : State)
    → IsTable s.downloads
    → delete_download root id delete_files s ≡ ok s'
    → IsTable s'.downloads
delete_download-IsTable root id delete_files s s' t h =
    subst IsTable (sym (delete_download_inv root id delete_files s s' h)) (record {
      rows = filter-All (λ d. not (d.id == id)) IsConsistent s.downloads t.rows;
      ids = filter-IdsDiffer (λ d. not (d.id == id)) s.downloads t.ids;
    })

-- The retry of a job that is over leaves its title in flight once more than before, whatever other
-- job of the title is in flight: a title that is in flight once is then in flight twice.
pub retry_download-in_flight :
    (id : ℕ) (s s' : State) (d : Download)
    → IsTable s.downloads
    → find_download id s.downloads ≡ some d
    → retry_download id s ≡ ok s'
    → in_flight_count d.post_id s'.downloads ≡ suc (in_flight_count d.post_id s.downloads)
unfolding requeue
retry_download-in_flight id s s' d t e h =
    let (d0, e0, a, changed) = retry_download_inv id s s' h in
    let same : d0 ≡ d = ground arith in
    let inactive : is_active_status d.status ≡ false =
      subst (λ x. is_active_status x.status ≡ false) same a in
    rw changed (
      update_found-count d.post_id id requeue s.downloads d e t.ids (ground arith)
        (ground (arith, ==_refl d.post_id)))

pub none_in_flight :
    (post_id : ℕ) (ds : Downloads)
    → any (is_in_flight post_id) ds ≡ false
    → in_flight_count post_id ds ≡ 0
none_in_flight post_id [] h = refl
none_in_flight post_id (d ∷ ds) h = ground (arith, none_in_flight post_id ds)

-- A creation that is accepted finds no job of its title in flight and leaves exactly one.
pub create_download-in_flight :
    (o : CreateOptions) (fetched : Result (Text × DownloadPlan)) (keys : Keys) (now : ℕ)
    (s s' : State)
    → create_download o fetched keys now s ≡ ok s'
    → (in_flight_count o.post_id s.downloads ≡ 0) × (in_flight_count o.post_id s'.downloads ≡ 1)
create_download-in_flight o fetched keys now s s' h =
    let (free, (title, plan, changed)) = create_download_inv o fetched keys now s s' h in
    let none_before = none_in_flight o.post_id s.downloads free in
    let row = new_download o title plan keys now in
    (
      none_before,
      rw changed (
          ground (
            arith,
            ==_refl o.post_id,
            none_before,
            count-append (is_in_flight o.post_id) s.downloads (row ∷ []),
          )),
    )
