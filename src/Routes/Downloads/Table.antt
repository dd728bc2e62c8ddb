-- ===== src/Routes/Downloads/Table.antt =====
-- The table of downloads through any requests of routes/downloads.ts.
use circleftp_jellyfin.Base.{ℕ, ◌≡◌, refl, List, [], ◌∷◌, false}
use circleftp_jellyfin.Base.Text.{Text}
use circleftp_jellyfin.Base.Result.{Result, ok, err}
use circleftp_jellyfin.Circleftp.Text.Names.{Platform}
use circleftp_jellyfin.Downloads.Service.{State}
use circleftp_jellyfin.Downloads.Service.Invariant.{IsInjective}
use circleftp_jellyfin.Downloads.Service.Requests.{has_id}
use circleftp_jellyfin.Downloads.Service.Table.{
  IsTable, request_cancel-IsTable, retry_download-IsTable, create_download-IsTable,
  delete_download-IsTable,
}
use circleftp_jellyfin.Routes.Downloads.{
  Request, create, cancel, retry, delete, planned, handle, kept, serve_all,
}

-- The keys that the database gives are new ones.
abbrev pub IsFresh : Request → State → Type 0
IsFresh (create o answer keys) s =
    IsInjective keys.file × (has_id s.downloads keys.download ≡ false)
IsFresh _ s = Unit

module _ (p : Platform) (root : Text) where
  abbrev pub AllFresh : List (ℕ × Request) → State → Type 0
  AllFresh [] s = Unit
  AllFresh ((now, r) ∷ rs) s = IsFresh r s × AllFresh rs (kept p root s (handle p root now r s))

  pub handle-IsTable :
      (now : ℕ) (r : Request) (s s' : State)
      → IsFresh r s
      → IsTable s.downloads
      → handle p root now r s ≡ ok s'
      → IsTable s'.downloads
  unfolding handle
  handle-IsTable now (create o answer keys) s s' (files, fresh) t h =
      create_download-IsTable o (planned p o.seasons answer) keys now s s' files fresh t h
  handle-IsTable now (cancel id) s s' f t h = request_cancel-IsTable id now s s' t h
  handle-IsTable now (retry id) s s' f t h = retry_download-IsTable id s s' t h
  handle-IsTable now (delete id delete_files) s s' f t h =
      delete_download-IsTable root id delete_files s s' t h

  kept-IsTable :
      (s : State) (o : Result State)
      → IsTable s.downloads
      → ((s' : State) → o ≡ ok s' → IsTable s'.downloads)
      → IsTable (kept p root s o).downloads
  kept-IsTable s (err e) t h = t
  kept-IsTable s (ok s') t h = h s' refl

  -- Whatever requests to create, cancel, retry and delete downloads are served, in whatever order
  -- and with whatever the upstream API answers, the rows of the table stay consistent and their
  -- keys different.
  pub serve_all-IsTable :
      (rs : List (ℕ × Request)) (s : State)
      → AllFresh rs s
      → IsTable s.downloads
      → IsTable (serve_all p root rs s).downloads
  unfolding serve_all
  serve_all-IsTable [] s f t = t
  serve_all-IsTable ((now, r) ∷ rs) s (f, fs) t =
      serve_all-IsTable rs _ fs
        (kept-IsTable s (handle p root now r s) t (λ s' h. handle-IsTable now r s s' f t h))
