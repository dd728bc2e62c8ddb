-- ===== src/System/Reachable.antt =====
-- What holds of the server after any steps.
use circleftp_jellyfin.Base.{
  ℕ, ◌≡◌, refl, sym, ap, subst, ◌∙◌, true, false, arith, All, Option-cases, inl, inr,
}
use circleftp_jellyfin.Base.Text.{Text}
use circleftp_jellyfin.Base.Result.{Result, ok, err}
use circleftp_jellyfin.Circleftp.Text.Names.{Platform}
use circleftp_jellyfin.Downloads.Model.{Downloads, find_download, is_running}
use circleftp_jellyfin.Downloads.Job.{Config, FileWorld}
use circleftp_jellyfin.Downloads.Queue.{
  QueueState, recover_row, recover_from_crash, finish_run, abort, shutdown,
}
use circleftp_jellyfin.Downloads.Queue.Recovery.{recover_from_crash-IsConsistent}
use circleftp_jellyfin.Downloads.Service.{State, finished}
use circleftp_jellyfin.Downloads.Service.Requests.{find-All, publish-downloads}
use circleftp_jellyfin.Downloads.Service.Table.{IsTable}
use circleftp_jellyfin.Routes.Downloads.{Request, handle, kept}
use circleftp_jellyfin.Routes.Downloads.Table.{IsFresh, handle-IsTable}
use circleftp_jellyfin.System.{
  Server, queue_of, request, wake_up, disk_after, run_job, stop, restart, Step, requested, woken,
  ran, stopped, restarted, Reach, here, next,
}
use circleftp_jellyfin.System.Rows.{runs, runs_at, handle-runs_at}
use circleftp_jellyfin.System.Claims.{IsSound, IdsDiffer-map, wake-IsSound}
use circleftp_jellyfin.System.Jobs.{finish_run-IsSound}

-- A table with the same rows running, under the same queue.
other_table :
    (concurrency : ℕ) (q : QueueState) (ds : Downloads)
    → IsTable ds
    → ((k : ℕ) → runs_at k ds ≡ runs_at k q.downloads)
    → IsSound concurrency q
    → IsSound concurrency (record q { downloads = ds })
unfolding abort
other_table concurrency q ds t same s = record {
  table = t;
  within = s.within;
  counted = s.counted;
  distinct = s.distinct;
  matched = λ k. same k ∙ s.matched k;
}

none_runs :
    (ds : Downloads) → All (λ d. is_running d.status ≡ false) ds → (k : ℕ) → runs_at k ds ≡ false
none_runs ds a k = elim (Option-cases (find_download k ds)) [
  | inl e ↦ ap runs e
  | inr (d, e) ↦ ap runs e ∙ find-All (λ x. is_running x.status ≡ false) k ds d e a
]

module _ (p : Platform) (root : Text) (c : Config) (concurrency : ℕ) where
  request-IsSound :
      (now : ℕ) (r : Request) (s : Server)
      → IsFresh r s.state
      → IsSound concurrency (queue_of s)
      → IsSound concurrency (queue_of (request p root now r s))
  unfolding request
  request-IsSound now r s f h = by_result (handle p root now r s.state) refl
    where
      by_result :
          (o : Result State)
          → handle p root now r s.state ≡ o
          → IsSound concurrency
              (record (queue_of s) { downloads = (kept p root s.state o).downloads })
      by_result (err e) answer = h
      by_result (ok s') answer =
          other_table concurrency (queue_of s) s'.downloads
            (handle-IsTable p root now r s.state s' f h.table answer)
            (handle-runs_at p root now r s.state s' f answer) h

  run_job-IsSound :
      (world : ℕ → FileWorld) (now id : ℕ) (s : Server)
      → abort id (queue_of s) ≡ true
      → IsSound concurrency (queue_of s)
      → IsSound concurrency (queue_of (run_job c world now id s))
  unfolding run_job
  run_job-IsSound world now id s a h =
      let q = finish_run c world now s.state.disk id (queue_of s) in
      let after : State = record {
        downloads = q.downloads;
        disk = disk_after c world now id s.state;
        events = s.state.events;
      } in
      subst (λ ds. IsSound concurrency (record q { downloads = ds }))
        (sym (publish-downloads id finished after))
        (finish_run-IsSound c world now concurrency s.state.disk id (queue_of s) a h)

  restart-IsSound :
      (s : Server) → IsSound concurrency (queue_of s) → IsSound concurrency (queue_of (restart s))
  unfolding restart abort recover_from_crash recover_row
  restart-IsSound s h =
      let (rows, consistent, idle) =
        recover_from_crash-IsConsistent s.state.downloads h.table.rows in
      record {
        table = record {
          rows = consistent;
          ids = IdsDiffer-map recover_row (λ d. refl) s.state.downloads h.table.ids;
        };
        within = omega arith;
        counted = refl;
        distinct = tt;
        matched = none_runs (recover_from_crash s.state.downloads) idle;
      }

  Step-IsSound :
      {s t : Server}
      → Step p root c concurrency s t
      → IsSound concurrency (queue_of s)
      → IsSound concurrency (queue_of t)
  unfolding wake_up stop shutdown abort
  Step-IsSound (requested now r s f) h = request-IsSound now r s f h
  Step-IsSound (woken now s) h = wake-IsSound concurrency now (queue_of s) h
  Step-IsSound (ran world now id s a) h = run_job-IsSound world now id s a h
  Step-IsSound (stopped s) h = record {
    table = h.table;
    within = h.within;
    counted = h.counted;
    distinct = h.distinct;
    matched = h.matched;
  }
  Step-IsSound (restarted s) h = restart-IsSound s h

  -- After any requests, wake-ups, ends of jobs, shutdowns and restarts, in any order, the server
  -- is sound if it was at first: every row is consistent and no key stands twice, no more jobs run
  -- than the limit allows, and a download is RUNNING exactly if this process runs its job.
  pub Reach-IsSound :
      {s t : Server}
      → Reach p root c concurrency s t
      → IsSound concurrency (queue_of s)
      → IsSound concurrency (queue_of t)
  Reach-IsSound here h = h
  Reach-IsSound (next r x) h = Step-IsSound x (Reach-IsSound r h)
