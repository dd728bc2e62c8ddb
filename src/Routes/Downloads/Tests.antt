-- ===== src/Routes/Downloads/Tests.antt =====
-- Some requests of routes/downloads.ts, and the theorems on them at this input.
use circleftp_jellyfin.Base.{ℕ, refl, ◌+◌, List, [], ◌∷◌, none, some, true, arith}
use circleftp_jellyfin.Base.Text.{codes}
use circleftp_jellyfin.Circleftp.Types.{RawPost, text}
use circleftp_jellyfin.Circleftp.Client.{fetched, failed}
use circleftp_jellyfin.Circleftp.Text.Names.{Platform}
use circleftp_jellyfin.Downloads.Service.{State, Keys, CreateOptions}
use circleftp_jellyfin.Downloads.Service.Table.{IsTable}
use circleftp_jellyfin.Routes.Downloads.{Request, create, cancel, retry, delete, serve_all, handle}
use circleftp_jellyfin.Routes.Downloads.Table.{AllFresh, serve_all-IsTable}
use circleftp_jellyfin.Web.Live.{apply_events}
use circleftp_jellyfin.Web.Live.Mirror.{Agree}
use circleftp_jellyfin.Web.Live.Stream.{first_snapshot, stream-Agree}

abbrev platform : Platform
platform = record { pathname = λ url. some url; decode_component = λ t. some t; number = λ t. none }

abbrev film : RawPost
film = record {
  id = some 5;
  title = some (codes "Film");
  name = none;
  type = some (codes "singleVideo");
  year = none;
  quality = none;
  watch_time = none;
  meta_data = none;
  image = none;
  image_sm = none;
  categories = none;
  content = text (codes "http://host/film.mkv");
}

abbrev options : CreateOptions
options = record { post_id = 5; seasons = []; user_id = 1 }

abbrev keys : Keys
keys = record { download = 4; file = λ i. 20 + i }

-- A film that is gone, then one that is there; it is cancelled, tried again, and not deleted.
abbrev requests : List (ℕ × Request)
requests =
    (10, create options (failed (some 404)) keys)
    ∷ (11, create options (fetched film) keys)
    ∷ (12, cancel 4)
    ∷ (13, retry 4)
    ∷ (14, delete 4 true)
    ∷ []

abbrev empty : State
empty = record { downloads = []; disk = λ _. none; events = [] }

fresh : AllFresh platform (codes "/srv") requests empty
unfolding handle
fresh =
    ((λ i j e. omega (arith, e), refl), ((λ i j e. omega (arith, e), refl), (tt, (tt, (tt, tt)))))

serve_all-IsTable_example : IsTable (serve_all platform (codes "/srv") requests empty).downloads
serve_all-IsTable_example =
    serve_all-IsTable platform (codes "/srv") requests empty fresh (record { rows = tt; ids = tt })

stream-Agree_example :
    Agree
      (apply_events []
        (first_snapshot [] ∷ (serve_all platform (codes "/srv") requests empty).events))
      (serve_all platform (codes "/srv") requests empty).downloads
stream-Agree_example =
    stream-Agree platform (codes "/srv") requests [] empty refl tt (omega arith) fresh
