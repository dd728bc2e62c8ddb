-- ===== src/Web/Live/Mirror.antt =====
-- The list of the browser mirrors the table of the server.
use circleftp_jellyfin.Base.{
  ℕ, ◌≡◌, refl, sym, ap, ◌∙◌, List, [], ◌∷◌, ◌++◌, some, true, if◌then◌else◌, ◌==◌, any, arith,
  Bool-cases, inl, inr,
}
use circleftp_jellyfin.Base.Text.{Text}
use circleftp_jellyfin.Base.Result.{Result, ok, err}
use circleftp_jellyfin.Circleftp.Text.Names.{Platform}
use circleftp_jellyfin.Downloads.Model.{Download, Downloads, find_download}
use circleftp_jellyfin.Downloads.Service.{
  State, Event, snapshot, created, progress, finished, deleted, heartbeat,
}
use circleftp_jellyfin.Downloads.Service.Announced.{
  seen, find-filter, Announces, create_download-Announces, request_cancel-Announces,
  retry_download-Announces, delete_download-Announces,
}
use circleftp_jellyfin.Routes.Downloads.Table.{IsFresh, AllFresh}
use circleftp_jellyfin.Routes.Downloads.{
  Request, create, cancel, retry, delete, planned, handle, kept, serve_all,
}
use circleftp_jellyfin.Web.Live.{replace_item, upsert, apply_event, apply_events}

-- The same downloads, whatever their order.
abbrev pub Agree : Downloads → Downloads → Type 0
Agree xs ys = (id : ℕ) → find_download id xs ≡ find_download id ys

-- The list that the browser makes of the events so far agrees with the table.
abbrev pub Mirrors : Downloads → State → Type 0
Mirrors start s = Agree (apply_events start s.events) s.downloads

find-replace :
    (d : Download) (id : ℕ) (xs : Downloads)
    → any (λ x. x.id == d.id) xs ≡ true
    → find_download id (replace_item d xs) ≡ (if d.id == id then some d else find_download id xs)
unfolding replace_item
find-replace d id [] h = ground arith
find-replace d id (x ∷ xs) h = elim (Bool-cases (x.id == d.id)) [
  | inl e ↦ rw e (ground arith)
  | inr e ↦ rw e (ground (arith, find-replace d id xs (ground arith)))
]

find-upsert :
    (d : Download) (id : ℕ) (xs : Downloads)
    → find_download id (upsert d xs) ≡ (if d.id == id then some d else find_download id xs)
unfolding upsert
find-upsert d id xs = elim (Bool-cases (any (λ x. x.id == d.id) xs)) [
  | inl e ↦ rw (upsert, e) (find-replace d id xs e)
  | inr e ↦ rw (upsert, e) refl
]

pub apply_event-seen :
    (e : Event) (id : ℕ) (xs : Downloads)
    → find_download id (apply_event xs e) ≡ seen e id (find_download id xs)
unfolding apply_event
apply_event-seen (snapshot ds) id xs = refl
apply_event-seen (created d) id xs = ground (arith, find-filter d.id id xs)
apply_event-seen (progress d) id xs = find-upsert d id xs
apply_event-seen (finished d) id xs = find-upsert d id xs
apply_event-seen (deleted i) id xs = find-filter i id xs
apply_event-seen (heartbeat at) id xs = refl

pub apply_events-append :
    (start : Downloads) (es : List Event) (e : Event)
    → apply_events start (es ++ e ∷ []) ≡ apply_event (apply_events start es) e
unfolding apply_events
apply_events-append start [] e = refl
apply_events-append start (x ∷ es) e = apply_events-append (apply_event start x) es e

announced-Mirrors :
    (start : Downloads) (s s' : State) (e : Event)
    → Announces s s' e
    → Mirrors start s
    → Mirrors start s'
announced-Mirrors start s s' e a m id =
    ap (λ es. find_download id (apply_events start es)) a.events
    ∙ ap (find_download id) (apply_events-append start s.events e)
    ∙ apply_event-seen e id (apply_events start s.events)
    ∙ ap (seen e id) (m id)
    ∙ sym (a.found id)

module _ (p : Platform) (root : Text) where
  handle-Announces :
      (now : ℕ) (r : Request) (s s' : State)
      → IsFresh r s
      → handle p root now r s ≡ ok s'
      → (e : Event) × Announces s s' e
  unfolding handle
  handle-Announces now (create o answer keys) s s' (files, fresh) h =
      create_download-Announces o (planned p o.seasons answer) keys now s s' fresh h
  handle-Announces now (cancel id) s s' f h = request_cancel-Announces id now s s' h
  handle-Announces now (retry id) s s' f h = retry_download-Announces id s s' h
  handle-Announces now (delete id delete_files) s s' f h =
      delete_download-Announces root id delete_files s s' h

  kept-Mirrors :
      (start : Downloads) (s : State) (o : Result State)
      → Mirrors start s
      → ((s' : State) → o ≡ ok s' → (e : Event) × Announces s s' e)
      → Mirrors start (kept p root s o)
  kept-Mirrors start s (err e) m h = m
  kept-Mirrors start s (ok s') m h = let (e, a) = h s' refl in announced-Mirrors start s s' e a m

  -- The list of the browser refines the table of the server: where it agrees with the table when
  -- its stream begins, it agrees with it, download for download, after whatever requests are
  -- served, once it has folded the events that they publish.
  pub serve_all-Mirrors :
      (rs : List (ℕ × Request)) (start : Downloads) (s : State)
      → AllFresh p root rs s
      → Mirrors start s
      → Mirrors start (serve_all p root rs s)
  unfolding serve_all
  serve_all-Mirrors [] start s f m = m
  serve_all-Mirrors ((now, r) ∷ rs) start s (f, fs) m =
      serve_all-Mirrors rs start _ fs
        (kept-Mirrors start s (handle p root now r s) m (λ s' h. handle-Announces now r s s' f h))
