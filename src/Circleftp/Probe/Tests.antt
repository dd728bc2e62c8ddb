-- ===== src/Circleftp/Probe/Tests.antt =====
-- The theorems on circleftp/probe.ts at concrete inputs.
use circleftp_jellyfin.Base.{◌≡◌, refl, [], ◌∷◌, some, none, true, ◌⊎◌}
use circleftp_jellyfin.Base.Text.{codes}
use circleftp_jellyfin.Downloads.Fetcher.Headers.{range_total}
use circleftp_jellyfin.Circleftp.Probe.{head, Ranged, ranged, probe_size, total_known_size}
use circleftp_jellyfin.Circleftp.Probe.Laws.{HeadSays, RangedSays, probe_size-says}

-- A host that refuses HEAD, a request that throws, and one that is answered.
size_said :
    HeadSays (head 403 [] []) 12345
    ⊎ (RangedSays Ranged.threw 12345 ⊎ RangedSays (ranged 206 (codes "bytes 0-0/12345")) 12345)
unfolding probe_size range_total
size_said =
    probe_size-says (head 403 [] []) Ranged.threw (ranged 206 (codes "bytes 0-0/12345")) 12345 refl

-- A range that cannot be served is taken for a host that serves ranges.
unsatisfiable_range :
    (probe_size (head 405 [] []) (ranged 416 (codes "bytes */7")) Ranged.threw).supports_range
    ≡ true
unfolding probe_size range_total
unsatisfiable_range = refl

sizes_added : total_known_size (some 3 ∷ none ∷ some 4 ∷ []) ≡ some 7
unfolding total_known_size
sizes_added = refl
