-- ===== src/Downloads/Listing.antt =====
-- `listDownloads` and `getDownload` of downloads/service.ts. Where two rows have the same times, the
-- order of the database is not known; here it is that of the table.
pub mod Cut
mod Tests
use circleftp_jellyfin.Base.{
  ℕ, List, [], ◌∷◌, Option, none, some, Bool, true, false, ◌&&◌, ◌||◌, not, if◌then◌else◌, ltb, leb,
  ◌==◌, filter, take, drop,
}
use circleftp_jellyfin.Base.Result.{Result, or_throw, not_found}
use circleftp_jellyfin.Downloads.Model.{
  Download, Downloads, DownloadStatus, is_active_status, find_download,
}

pub data ListFilter : Type 0 where
  every active done : ListFilter

abbrev pub is_terminal_status : DownloadStatus → Bool
is_terminal_status DownloadStatus.completed = true
is_terminal_status DownloadStatus.partial = true
is_terminal_status DownloadStatus.failed = true
is_terminal_status DownloadStatus.cancelled = true
is_terminal_status _ = false

abbrev pub passes : ListFilter → Download → Bool
passes every d = true
passes active d = is_active_status d.status
passes done d = is_terminal_status d.status

-- The order of `finishedAt`, ascending, with nulls first: before, and not behind.
abbrev pub finished_before : Option ℕ → Option ℕ → Bool
finished_before none none = false
finished_before none (some n) = true
finished_before (some m) none = false
finished_before (some m) (some n) = ltb m n

abbrev pub finished_by : Option ℕ → Option ℕ → Bool
finished_by m n = not (finished_before n m)

-- `orderBy`
abbrev pub precedes : Download → Download → Bool
precedes a b =
    finished_before a.finished_at b.finished_at
    || (finished_by a.finished_at b.finished_at && ltb b.created_at a.created_at)

unfoldable pub insert_row : Download → Downloads → Downloads
insert_row d [] = d ∷ []
insert_row d (x ∷ xs) = if precedes x d then x ∷ insert_row d xs else d ∷ x ∷ xs

unfoldable pub sort_rows : Downloads → Downloads
unfolding insert_row
sort_rows [] = []
sort_rows (d ∷ ds) = insert_row d (sort_rows ds)

-- What `findMany` finds before `take`.
unfoldable pub ordered : ListFilter → Downloads → Downloads
unfolding sort_rows
ordered f ds = sort_rows (filter (passes f) ds)

unfoldable pub list_downloads : ListFilter → ℕ → Downloads → Downloads
unfolding ordered
list_downloads f limit ds = take limit (ordered f ds)

unfoldable pub get_download : ℕ → Downloads → Result Download
get_download id ds = or_throw (find_download id ds) not_found
