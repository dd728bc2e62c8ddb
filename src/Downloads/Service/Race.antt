-- ===== src/Downloads/Service/Race.antt =====
-- Two creations of one title at a time: `createDownload` looks for a job in flight, then waits for the
-- upstream API, and writes the row afterwards.
use circleftp_jellyfin.Base.{
  ℕ, suc, ◌≡◌, refl, [], ◌∷◌, ◌++◌, false, arith, any, count-append, ==_refl, Bool-cases, inl, inr,
}
use circleftp_jellyfin.Base.Text.{Text}
use circleftp_jellyfin.Base.Result.{Result, ok, ◌>>=◌, ◌>>◌, throw_if, bad_request, conflict}
use circleftp_jellyfin.Circleftp.Plan.{DownloadPlan}
use circleftp_jellyfin.Downloads.Paths.{is_empty}
use circleftp_jellyfin.Downloads.Service.{
  State, created, CreateOptions, Keys, is_in_flight, new_download, create_download,
}
use circleftp_jellyfin.Downloads.Service.Requests.{in_flight_count}
use circleftp_jellyfin.Downloads.Service.Table.{none_in_flight}

-- What comes before the call of `fetchPost`, and what comes after it.
unfoldable pub check_create : CreateOptions → State → Result (Unit {0})
check_create o s = throw_if (any (is_in_flight o.post_id) s.downloads) (conflict "already_queued")

unfoldable pub finish_create :
    CreateOptions → Result (Text × DownloadPlan) → Keys → ℕ → State → Result State
finish_create o fetched keys now s = do
  (title, plan) ← fetched
  throw_if (is_empty plan.files) bad_request
  let row = new_download o title plan keys now
  ok (record s { downloads = s.downloads ++ row ∷ []; events = s.events ++ created row ∷ [] })

-- Undisturbed, the two halves are a creation.
create_download-halves :
    (o : CreateOptions) (fetched : Result (Text × DownloadPlan)) (keys : Keys) (now : ℕ) (s : State)
    → create_download o fetched keys now s
      ≡ (check_create o s >> finish_create o fetched keys now s)
unfolding create_download check_create finish_create
create_download-halves o fetched keys now s =
    elim (Bool-cases (any (is_in_flight o.post_id) s.downloads)) [
      | inl e ↦ rw e refl
      | inr e ↦ rw e refl
    ]

appended_in_flight :
    (o : CreateOptions) (title : Text) (plan : DownloadPlan) (keys : Keys) (now post_id : ℕ)
    (s : State)
    → is_empty plan.files ≡ false
    → o.post_id ≡ post_id
    → (s' : State) × (finish_create o (ok (title, plan)) keys now s ≡ ok s')
      × (in_flight_count post_id s'.downloads ≡ suc (in_flight_count post_id s.downloads))
unfolding finish_create
appended_in_flight o title plan keys now post_id s h e =
    let row = new_download o title plan keys now in
    (
      record s { downloads = s.downloads ++ row ∷ []; events = s.events ++ created row ∷ [] },
      rw h refl,
      ground
          (arith, e, ==_refl post_id, count-append (is_in_flight post_id) s.downloads (row ∷ [])),
    )

-- Where two creations of one title both look before either writes, and the upstream API has files for
-- both, both are accepted, and the title is in flight twice.
pub create_download-race :
    (o o' : CreateOptions) (title title' : Text) (plan plan' : DownloadPlan) (keys keys' : Keys)
    (now now' : ℕ) (s : State)
    → o'.post_id ≡ o.post_id
    → check_create o s ≡ ok tt
    → is_empty plan.files ≡ false
    → is_empty plan'.files ≡ false
    → (check_create o' s ≡ ok tt)
      × ((s' : State) × (finish_create o (ok (title, plan)) keys now s ≡ ok s')
          × ((s'' : State) × (finish_create o' (ok (title', plan')) keys' now' s' ≡ ok s'')
              × (in_flight_count o.post_id s''.downloads ≡ 2)))
unfolding check_create
create_download-race o o' title title' plan plan' keys keys' now now' s same c f f' =
    let free : any (is_in_flight o.post_id) s.downloads ≡ false = ground arith in
    let (s', e, n) = appended_in_flight o title plan keys now o.post_id s f refl in
    let (s'', e', n') = appended_in_flight o' title' plan' keys' now' o.post_id s' f' same in
    (rw same c, (s', e, (s'', e', omega (arith, n, n', none_in_flight o.post_id s.downloads free))))
