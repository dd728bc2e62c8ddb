-- ===== src/Web/Live.antt =====
-- packages/web/src/hooks/useDownloads.tsx: the list of downloads that the browser folds from the
-- events of the server. The state of the connection and the rendering are left out.
pub mod Mirror
pub mod Stream
use circleftp_jellyfin.Base.{
  ℕ, List, [], ◌∷◌, ◌++◌, Bool, not, if◌then◌else◌, ◌==◌, filter, any, map, count,
}
use circleftp_jellyfin.Downloads.Model.{Download, Downloads, is_active_status}
use circleftp_jellyfin.Downloads.Service.{
  Event, snapshot, created, progress, finished, deleted, heartbeat,
}

-- `next[index] = download`, at the first item with its id.
unfoldable pub replace_item : Download → Downloads → Downloads
replace_item d [] = []
replace_item d (x ∷ xs) = if x.id == d.id then d ∷ xs else x ∷ replace_item d xs

-- The branch of an update: an insert, where the id is not in the list.
unfoldable pub upsert : Download → Downloads → Downloads
unfolding replace_item
upsert d xs = if any (λ x. x.id == d.id) xs then replace_item d xs else d ∷ xs

unfoldable pub apply_event : Downloads → Event → Downloads
unfolding upsert
apply_event current (snapshot downloads) = downloads
apply_event current (created d) = d ∷ filter (λ x. not (x.id == d.id)) current
apply_event current (progress d) = upsert d current
apply_event current (finished d) = upsert d current
apply_event current (deleted id) = filter (λ x. not (x.id == id)) current
apply_event current (heartbeat at) = current

-- The events of a stream, one after another.
unfoldable pub apply_events : Downloads → List Event → Downloads
unfolding apply_event
apply_events current [] = current
apply_events current (e ∷ es) = apply_events (apply_event current e) es

-- `activeCount`
unfoldable pub active_count : Downloads → ℕ
active_count downloads = count (λ d. is_active_status d.status) downloads
