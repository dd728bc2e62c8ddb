-- ===== src/Circleftp/Posters/Tests.antt =====
-- The theorems on circleftp/imageCache.ts at concrete inputs.
use circleftp_jellyfin.Base.{◌≡◌, refl, [], ◌∷◌, none, some, true, false, map}
use circleftp_jellyfin.Base.Text.{codes, is_space}
use circleftp_jellyfin.Base.Result.{ok}
use circleftp_jellyfin.Downloads.Paths.Laws.{IsSegment}
use circleftp_jellyfin.Circleftp.Posters.{
  CachedImage, Cache, image_reply, ImageReply, whole, type_cut, read_cache, write_cache,
  is_valid_image_name, serve_poster, fetch_upstream,
}
use circleftp_jellyfin.Circleftp.Posters.Laws.{
  IsPoster, IsSafe, serve_poster-IsSafe, read_cache-torn,
}

names_checked :
    map is_valid_image_name (codes "a-1.jpg" ∷ codes ".." ∷ codes "a/b" ∷ [] ∷ [])
    ≡ true ∷ false ∷ false ∷ false ∷ []
unfolding is_valid_image_name
names_checked = refl

abbrev reply : ImageReply
reply = image_reply 200 (codes "Image/PNG; q=1") ((1 ∷ 2 ∷ []) ∷ (3 ∷ []) ∷ []) true

image_read :
    fetch_upstream reply ≡ some (record { body = 1 ∷ 2 ∷ 3 ∷ []; content_type = codes "image/png" })
unfolding fetch_upstream is_space
image_read = refl

abbrev no_entries : Cache
no_entries key = none

serve_poster-IsSafe_example :
    ((i : CachedImage)
      → (serve_poster (λ t. t) 5 reply whole (codes "a-1.jpg") no_entries).0 ≡ ok i
      → IsPoster i × IsSegment (codes "a-1.jpg"))
    × IsSafe (serve_poster (λ t. t) 5 reply whole (codes "a-1.jpg") no_entries).1
serve_poster-IsSafe_example =
    serve_poster-IsSafe (λ t. t) 5 reply whole (codes "a-1.jpg") no_entries refl
      (λ key e h. absurd (cc))

-- The first two characters of the type have been written.
torn_type :
    read_cache 6
      (write_cache (type_cut 2) 5 (record { body = 1 ∷ []; content_type = codes "image/png" }) none)
    ≡ some (record { body = 1 ∷ []; content_type = codes "im" })
unfolding is_space
torn_type =
    read_cache-torn 2 5 6 (record { body = 1 ∷ []; content_type = codes "image/png" }) none refl
