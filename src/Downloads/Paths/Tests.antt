-- ===== src/Downloads/Paths/Tests.antt =====
-- Runs of downloads/paths.ts and circleftp/text.ts, and their theorems at concrete inputs.
use circleftp_jellyfin.Base.{◌≡◌, refl, List, [], ◌∷◌, ◌++◌, arith, All, length, ◌≤◌}
use circleftp_jellyfin.Base.Text.{Text, codes, is_space}
use circleftp_jellyfin.Base.Result.{ok, err, bad_request}
use circleftp_jellyfin.Circleftp.Text.{sanitize, is_illegal}
use circleftp_jellyfin.Circleftp.Text.Laws.{IsComponent, sanitize-IsComponent, sanitize-sanitize}
use circleftp_jellyfin.Downloads.Paths.{render, resolve_destination, safe_segments}
use circleftp_jellyfin.Downloads.Paths.Laws.{
  IsSegment, resolve_destination_lem, resolve_destination-IsSegment, untitled_IsComponent,
}

sanitize_slash : sanitize (codes "..S01/E02: a  b. ") (codes "x") ≡ codes "S01 E02 a b"
unfolding sanitize is_illegal is_space
sanitize_slash = refl

abbrev media : List Text
media = codes "srv" ∷ codes "media" ∷ []

media-IsSegment : All IsSegment media
media-IsSegment = (
  record { nonempty = λ e. cc; no_slash = omega arith; not_dot = λ e. cc; not_dots = λ e. cc },
  (
    record { nonempty = λ e. cc; no_slash = omega arith; not_dot = λ e. cc; not_dots = λ e. cc },
    tt,
  ),
)

traversal :
    resolve_destination (codes "/srv/media") (codes "../../etc") (codes "../Season 01/../a.mkv")
    ≡ ok (codes "/srv/media/etc/Season 01/a.mkv")
unfolding resolve_destination is_illegal is_space
traversal = refl

no_name : resolve_destination (codes "/srv/media") (codes "x") (codes ".. / .") ≡ err bad_request
unfolding resolve_destination is_illegal is_space
no_name = refl

IsComponent-sanitized : IsComponent (sanitize (codes " a/b. ") (codes "untitled"))
IsComponent-sanitized =
    sanitize-IsComponent (codes " a/b. ") (codes "untitled") untitled_IsComponent

sanitized_twice :
    sanitize (sanitize (codes " a/ b. ") (codes "untitled")) (codes "file")
    ≡ sanitize (codes " a/ b. ") (codes "untitled")
unfolding is_space
sanitized_twice =
    sanitize-sanitize (codes " a/ b. ") (codes "untitled") (codes "file") untitled_IsComponent
      (ground arith)

resolve_destination_lem_example :
    resolve_destination (codes "/srv/media") (codes "..") (codes "a/../b")
    ≡ ok (codes "/srv/media/untitled/a/b")
unfolding safe_segments is_illegal is_space sanitize
resolve_destination_lem_example =
    resolve_destination_lem media (codes "..") (codes "a/../b") media-IsSegment

root_refused : resolve_destination (codes "/") (codes "Film") (codes "a.mkv") ≡ err bad_request
unfolding resolve_destination is_illegal is_space
root_refused = refl

resolve_destination-IsSegment_example :
    (ss : List Text) × (codes "/srv/media/etc/Season 01/a.mkv" ≡ render (media ++ ss))
    × All IsSegment ss
    × (2 ≤ length ss)
resolve_destination-IsSegment_example =
    resolve_destination-IsSegment (codes "srv") (codes "media" ∷ []) media-IsSegment
      (codes "../../etc") (codes "../Season 01/../a.mkv") traversal
