-- ===== src/Circleftp/Probe/Pool.antt =====
-- `probeSizes` of circleftp/probe.ts: workers that share a queue of files and a table of results, as a
-- relation of their steps. A worker is at the head of its loop, waits for a probe, or has returned.
-- `Answers url r` is that a call of `probeSize` on the address may end with `r`.
pub mod Laws
mod Tests
use circleftp_jellyfin.Base.{
  ℕ, zero, suc, ◌+◌, ◌-◌, ◌≤◌, ◌<◌, ◌≡◌, List, [], ◌∷◌, ◌++◌, Option, none, some, Bool, true, false,
  any, length, if◌then◌else◌, leb,
}
use circleftp_jellyfin.Base.Text.{Text, text_eq}
use circleftp_jellyfin.Circleftp.Probe.{ProbeResult}

pub record Pool : Type 0 where
  -- The files that no worker has taken.
  pub queue : List Text
  -- The files whose probes are under way.
  pub flying : List Text
  pub results : List (Text × ProbeResult)
  -- The workers at the head of the loop, and those that have returned.
  pub ready : ℕ
  pub returned : ℕ
  -- Whether a worker has returned because the time was up.
  pub is_late : Bool

abbrev pub has : Text → List (Text × ProbeResult) → Bool
has url = any (λ r. text_eq r.0 url)

abbrev pub get : Text → List (Text × ProbeResult) → Option ProbeResult
get url [] = none
get url ((key, r) ∷ rest) = if text_eq key url then some r else get url rest

-- `Math.min(concurrency, queue.length)`
abbrev pub worker_count : ℕ → List Text → ℕ
worker_count concurrency urls = if leb concurrency (length urls) then concurrency else length urls

unfoldable pub started : ℕ → List Text → Pool
started concurrency urls = record {
  queue = urls;
  flying = [];
  results = [];
  ready = worker_count concurrency urls;
  returned = 0;
  is_late = false;
}

module _ (Answers : Text → ProbeResult → Type 0) (deadline : ℕ) where
  -- One worker goes on: it returns, takes a file that has a result already, takes a file to probe, or
  -- stores the result of its probe.
  pub data Step : Pool → Pool → Type 0 where
    return_done :
        (s : Pool) (r : ℕ)
        → s.ready ≡ suc r
        → s.queue ≡ []
        → Step s (record s { ready = r; returned = suc s.returned })
    return_late :
        (s : Pool) (r now : ℕ) (url : Text) (rest : List Text)
        → s.ready ≡ suc r
        → s.queue ≡ url ∷ rest
        → deadline ≤ now
        → Step s (record s { ready = r; returned = suc s.returned; is_late = true })
    skip :
        (s : Pool) (r now : ℕ) (url : Text) (rest : List Text)
        → s.ready ≡ suc r
        → s.queue ≡ url ∷ rest
        → now < deadline
        → has url s.results ≡ true
        → Step s (record s { queue = rest })
    take :
        (s : Pool) (r now : ℕ) (url : Text) (rest : List Text)
        → s.ready ≡ suc r
        → s.queue ≡ url ∷ rest
        → now < deadline
        → has url s.results ≡ false
        → Step s (record s { queue = rest; flying = url ∷ s.flying; ready = r })
    store :
        (s : Pool) (url : Text) (before after : List Text) (result : ProbeResult)
        → s.flying ≡ before ++ url ∷ after
        → Answers url result
        → Step s (record s {
          flying = before ++ after;
          results = (url, result) ∷ s.results;
          ready = suc s.ready;
        })

  pub data Reach (s : Pool) : Pool → Type 0 where
    here : Reach s s
    next : {t u : Pool} → Reach s t → Step t u → Reach s u

  -- `await Promise.all(workers)` goes on.
  abbrev pub IsOver : Pool → Type 0
  IsOver s = (s.ready ≡ 0) × (s.flying ≡ [])
