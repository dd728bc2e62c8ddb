-- ===== src/Circleftp/Probe/Pool/Tests.antt =====
-- The theorems on the workers of probeSizes at one file that is probed once.
use circleftp_jellyfin.Base.{
  ◌+◌, ◌*◌, ◌≤◌, ◌≡◌, refl, List, [], ◌∷◌, ◌⊎◌, some, true, false, All, arith, length,
}
use circleftp_jellyfin.Base.Text.{Text, codes}
use circleftp_jellyfin.Circleftp.Probe.{ProbeResult}
use circleftp_jellyfin.Circleftp.Probe.Pool.{
  Pool, get, worker_count, started, Step, take, store, return_done, Reach, here, next, IsOver,
}
use circleftp_jellyfin.Circleftp.Probe.Pool.Laws.{
  Reach-bounded, Reach-complete, step_count, Reach-terminates,
}

abbrev found : ProbeResult
found = record { size = some 7; status = some 200; supports_range = true }

abbrev Answers : Text → ProbeResult → Type 0
Answers url r = r ≡ found

abbrev file : Text
file = codes "http://host/a.mkv"

abbrev urls : List Text
urls = file ∷ []

abbrev asked : Pool
asked = record { queue = []; flying = urls; results = []; ready = 0; returned = 0; is_late = false }

abbrev finished : Pool
finished = record {
  queue = [];
  flying = [];
  results = (file, found) ∷ [];
  ready = 0;
  returned = 1;
  is_late = false;
}

run : Reach Answers 100 (started 8 urls) finished
unfolding started
run =
    next
      (next (next here (take (started 8 urls) 0 5 file [] refl refl (omega arith) refl))
        (store asked file [] [] found refl refl))
      (return_done (record asked { flying = []; results = (file, found) ∷ []; ready = 1 }) 0 refl
        refl)

few_in_flight :
    (length finished.flying ≤ 8)
    × ((url : Text) (r : ProbeResult) → get url finished.results ≡ some r → Answers url r)
few_in_flight = Reach-bounded Answers 100 8 urls run

Reach-complete_example :
    All (λ url. (r : ProbeResult) × (get url finished.results ≡ some r) × Answers url r) urls
Reach-complete_example = Reach-complete Answers 100 8 urls (omega arith) run (refl, refl) refl

Reach-terminates_example :
    (step_count Answers 100 8 urls run ≤ 3 * length urls + worker_count 8 urls)
    × (IsOver Answers 100 finished ⊎ ((t : Pool) × Step Answers 100 finished t))
Reach-terminates_example = Reach-terminates Answers 100 8 urls (λ url. (found, refl)) run
