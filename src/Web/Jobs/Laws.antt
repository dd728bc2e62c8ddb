-- ===== src/Web/Jobs/Laws.antt =====
-- What the page of downloads offers, against what downloads/service.ts accepts.
use circleftp_jellyfin.Base.{ℕ, ◌≡◌, refl, [], ◌∷◌, some, Bool, true, not, arith, any, filter}
use circleftp_jellyfin.Base.Text.{Text}
use circleftp_jellyfin.Base.Result.{is_ok}
use circleftp_jellyfin.Circleftp.Text.Names.{Platform}
use circleftp_jellyfin.Downloads.Model.{
  Download, Downloads, DownloadStatus, find_download, is_active_status, is_completed_file,
}
use circleftp_jellyfin.Downloads.Service.{State, request_cancel, retry_download, delete_download}
use circleftp_jellyfin.Downloads.Listing.{
  ListFilter, every, active, done, is_terminal_status, passes,
}
use circleftp_jellyfin.Routes.Downloads.{handle}
use circleftp_jellyfin.Web.Jobs.{
  is_visible, visible, is_completed, Button, cancel_button, retry_button, delete_button,
}

pub terminal-active : (t : DownloadStatus) → is_terminal_status t ≡ not (is_active_status t)
terminal-active DownloadStatus.queued = refl
terminal-active DownloadStatus.running = refl
terminal-active DownloadStatus.completed = refl
terminal-active DownloadStatus.partial = refl
terminal-active DownloadStatus.failed = refl
terminal-active DownloadStatus.cancelled = refl

-- The filter of the page is that of the route.
visible-passes : (f : ListFilter) (ds : Downloads) → visible f ds ≡ filter (passes f) ds
unfolding visible is_visible
visible-passes f [] = refl
visible-passes every (d ∷ ds) = ground (arith, visible-passes every ds)
visible-passes active (d ∷ ds) = ground (arith, visible-passes active ds, terminal-active d.status)
visible-passes done (d ∷ ds) = ground (arith, visible-passes done ds)

-- A button and what becomes of its request.
abbrev pub Agrees : Platform → Text → ℕ → State → Button → Type 0
Agrees p root now s b = is_ok (handle p root now b.request s) ≡ b.is_shown

abbrev pub has_more : Download → Bool
has_more d = any (λ f. not (is_completed_file f.status)) d.files

module _ (p : Platform) (root : Text) (now : ℕ) (s : State) (d : Download)
    (found : find_download d.id s.downloads ≡ some d) where
  -- On a job of the table the buttons to cancel and to delete it are shown exactly if the server would
  -- accept it; so is the button to retry it where a job that is over is COMPLETED exactly if all its
  -- files are, which a restart and a cancellation can break: the server then refuses what is shown.
  pub job_buttons-Agrees :
      (is_terminal_status d.status ≡ true → has_more d ≡ not (is_completed d.status))
      → Agrees p root now s (cancel_button d)
        × Agrees p root now s (retry_button d)
        × Agrees p root now s (delete_button d)
  unfolding handle request_cancel retry_download delete_download cancel_button retry_button
      delete_button
  job_buttons-Agrees exact =
      let t = terminal-active d.status in
      (ground (arith, found, t), ground (arith, found, t, exact), ground (arith, found, t))
