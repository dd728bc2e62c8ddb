-- ===== src/System.antt =====
-- packages/server/src/index.ts and app.ts: the server as a whole, a state that requests, the queue,
-- the end of a job, a shutdown and a restart change one at a time.
pub mod Rows
pub mod Claims
pub mod Jobs
pub mod Reachable
mod Tests
use circleftp_jellyfin.Base.{ℕ, List, [], ◌∷◌, Option, none, some, Bool, true, false, ◌≡◌}
use circleftp_jellyfin.Base.Text.{Text}
use circleftp_jellyfin.Circleftp.Text.Names.{Platform}
use circleftp_jellyfin.Downloads.Model.{Download, find_download}
use circleftp_jellyfin.Downloads.Disk.{Disk}
use circleftp_jellyfin.Downloads.Job.{Config, Job, FileWorld, process_job}
use circleftp_jellyfin.Downloads.Queue.{
  QueueState, recover_from_crash, wake, finish_run, abort, shutdown,
}
use circleftp_jellyfin.Downloads.Service.{State, finished, publish_download}
use circleftp_jellyfin.Routes.Downloads.{Request, handle, kept}
use circleftp_jellyfin.Routes.Downloads.Table.{IsFresh}

-- The tables, the disk and the events, beside the fields of the one `DownloadQueue`.
pub record Server : Type 0 where
  pub state : State
  pub running : ℕ
  pub is_stopped : Bool
  pub in_flight : List ℕ

abbrev pub queue_of : Server → QueueState
queue_of s = record {
  downloads = s.state.downloads;
  running = s.running;
  is_stopped = s.is_stopped;
  in_flight = s.in_flight;
}

abbrev pub with_queue : QueueState → Server → Server
with_queue q s = record {
  state = record s.state { downloads = q.downloads };
  running = q.running;
  is_stopped = q.is_stopped;
  in_flight = q.in_flight;
}

-- A request to the downloads.
unfoldable pub request : Platform → Text → ℕ → Request → Server → Server
unfolding handle
request p root now r s = record s { state = kept p root s.state (handle p root now r s.state) }

unfoldable pub wake_up : ℕ → ℕ → Server → Server
unfolding wake
wake_up concurrency now s = with_queue (wake concurrency now (queue_of s)) s

-- The disk that a job leaves, which it finds as it stands.
unfoldable pub disk_after : Config → (ℕ → FileWorld) → ℕ → ℕ → State → Disk
unfolding process_job
disk_after c world now id s = elim (find_download id s.downloads) [
  | none ↦ s.disk
  | some d ↦ (process_job c world now (record { row = d; disk = s.disk })).disk
]

-- `runJob` from its start to its end, as one step, and the event that it publishes there.
unfoldable pub run_job : Config → (ℕ → FileWorld) → ℕ → ℕ → Server → Server
unfolding finish_run disk_after publish_download
run_job c world now id s =
    let q = finish_run c world now s.state.disk id (queue_of s) in
    record (with_queue q s) {
      state = publish_download id finished (record {
        downloads = q.downloads;
        disk = disk_after c world now id s.state;
        events = s.state.events;
      });
    }

unfoldable pub stop : Server → Server
unfolding shutdown
stop s = with_queue (shutdown (queue_of s)) s

-- A new process: nothing runs, and what ran is queued again. Its clients are gone.
unfoldable pub restart : Server → Server
unfolding recover_from_crash
restart s = record {
  state = record s.state { downloads = recover_from_crash s.state.downloads; events = [] };
  running = 0;
  is_stopped = false;
  in_flight = [];
}

-- What happens to a server that runs at most so many jobs at once.
pub data Step (p : Platform) (root : Text) (c : Config) (concurrency : ℕ)
    : Server → Server → Type 0 where
  requested :
      (now : ℕ) (r : Request) (s : Server)
      → IsFresh r s.state
      → Step p root c concurrency s (request p root now r s)
  woken : (now : ℕ) (s : Server) → Step p root c concurrency s (wake_up concurrency now s)
  ran :
      (world : ℕ → FileWorld) (now id : ℕ) (s : Server)
      → abort id (queue_of s) ≡ true
      → Step p root c concurrency s (run_job c world now id s)
  stopped : (s : Server) → Step p root c concurrency s (stop s)
  restarted : (s : Server) → Step p root c concurrency s (restart s)

-- A server to which any number of such steps lead.
pub data Reach (p : Platform) (root : Text) (c : Config) (concurrency : ℕ) (s : Server)
    : Server → Type 0 where
  here : Reach p root c concurrency s s
  next :
      {t u : Server}
      → Reach p root c concurrency s t
      → Step p root c concurrency t u
      → Reach p root c concurrency s u
