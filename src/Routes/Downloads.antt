-- ===== src/Routes/Downloads.antt =====
-- packages/server/src/routes/downloads.ts: the requests on downloads. What the queue does when it is
-- woken, and the transfer that a cancellation aborts, follow later and are not part of the answer.
pub mod Table
mod Tests
use circleftp_jellyfin.Base.{
  ℕ, zero, suc, List, [], ◌∷◌, Option, none, some, Bool, get_or_else, if◌then◌else◌, ◌==◌,
}
use circleftp_jellyfin.Base.Text.{Text}
use circleftp_jellyfin.Base.Result.{Result, ok, err, not_found, upstream, internal}
use circleftp_jellyfin.Circleftp.Types.{RawPost}
use circleftp_jellyfin.Circleftp.Client.{Answer, fetched, failed, crashed}
use circleftp_jellyfin.Circleftp.Text.Names.{Platform, or_else}
use circleftp_jellyfin.Circleftp.Plan.{DownloadPlan}
use circleftp_jellyfin.Circleftp.Plan.Build.{build_plan}
use circleftp_jellyfin.Downloads.Service.{
  State, CreateOptions, Keys, create_download, request_cancel, retry_download, delete_download,
}

-- The answer to a `CircleFtpError`, `rethrowUpstream`.
abbrev pub upstream_error : Option ℕ → Result (Text × DownloadPlan)
upstream_error none = err upstream
upstream_error (some status) = if status == 404 then err not_found else err upstream

-- What `fetchPost` ends with, as the title and the plan of `createDownload`; an error that is not
-- the upstream's is answered with 500.
unfoldable pub planned : Platform → List Text → Answer RawPost → Result (Text × DownloadPlan)
unfolding build_plan
planned p seasons (fetched post) =
    let plan = build_plan p post seasons in
    ok (get_or_else (or_else post.name post.title) plan.folder, plan)
planned p seasons (failed status) = upstream_error status
planned p seasons crashed = err internal

-- A request that has been parsed, with what the upstream API and the database answer.
pub data Request : Type 0 where
  create : CreateOptions → Answer RawPost → Keys → Request
  cancel retry : ℕ → Request
  delete : ℕ → Bool → Request

module _ (p : Platform) (root : Text) where
  unfoldable pub handle : ℕ → Request → State → Result State
  unfolding planned create_download request_cancel retry_download delete_download
  handle now (create o answer keys) s = create_download o (planned p o.seasons answer) keys now s
  handle now (cancel id) s = request_cancel id now s
  handle now (retry id) s = retry_download id s
  handle now (delete id delete_files) s = delete_download root id delete_files s

  -- A request that is refused changes nothing.
  abbrev pub kept : State → Result State → State
  kept s (ok s') = s'
  kept s (err e) = s

  unfoldable pub serve_all : List (ℕ × Request) → State → State
  unfolding handle
  serve_all [] s = s
  serve_all ((now, r) ∷ rs) s = serve_all rs (kept s (handle now r s))
