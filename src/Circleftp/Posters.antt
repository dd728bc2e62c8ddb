-- ===== src/Circleftp/Posters.antt =====
-- circleftp/imageCache.ts and the route GET /library/image/:filename of routes/library.ts: posters,
-- fetched from upstream and kept on disk. The hash that names a file of the cache, and what the
-- network and the disk answer, are arguments.
pub mod Laws
mod Tests
use circleftp_jellyfin.Base.{
  ℕ, ◌+◌, ◌-◌, ◌*◌, List, [], ◌∷◌, ◌++◌, Option, none, some, Bool, true, false, ◌&&◌, ◌||◌, not,
  if◌then◌else◌, ltb, leb, ◌==◌, length, take, all, any, map, get_or_else,
}
use circleftp_jellyfin.Base.Text.{Text, codes, text_eq, trim, to_lower_char}
use circleftp_jellyfin.Base.Result.{
  Result, ok, err, ◌>>=◌, ◌>>◌, throw_if, or_throw, bad_request, not_found,
}
use circleftp_jellyfin.Circleftp.Text.Patterns.{is_digit}

abbrev pub max_image_bytes : ℕ
max_image_bytes = 8 * 1024 * 1024

abbrev pub cache_ttl : ℕ
cache_ttl = 7 * 24 * 60 * 60 * 1000

-- `ALLOWED_CONTENT_TYPES`
abbrev pub allowed_types : List Text
allowed_types =
    codes "image/jpeg"
    ∷ codes "image/png"
    ∷ codes "image/webp"
    ∷ codes "image/gif"
    ∷ codes "image/avif"
    ∷ []

abbrev pub is_allowed_type : Text → Bool
is_allowed_type t = any (text_eq t) allowed_types

pub record CachedImage : Type 0 where
  pub body : List ℕ
  pub content_type : Text

-- `/^[A-Za-z0-9._-]+$/`, one character
abbrev pub is_name_char : ℕ → Bool
is_name_char c =
    is_digit c
    || (leb b'a' c && leb c b'z')
    || (leb b'A' c && leb c b'Z')
    || c == b'.'
    || c == b'_'
    || c == b'-'

unfoldable pub is_valid_image_name : Text → Bool
is_valid_image_name name =
    not (length name == 0 || ltb 200 (length name))
    && not (text_eq name (codes ".") || text_eq name (codes ".."))
    && all is_name_char name

-- A file of the cache, with the file `.type` beside it.
pub record Entry : Type 0 where
  pub body : List ℕ
  pub type : Option Text
  pub modified : ℕ

abbrev pub Cache : Type 0
Cache = Text → Option Entry

abbrev pub type_or_jpeg : Text → Text
type_or_jpeg t = if text_eq t [] then codes "image/jpeg" else t

unfoldable pub read_cache : ℕ → Option Entry → Option CachedImage
read_cache now none = none
read_cache now (some e) =
    if ltb cache_ttl (now - e.modified)
    then none
    else some (record {
      body = e.body;
      content_type = type_or_jpeg (trim (get_or_else e.type (codes "image/jpeg")));
    })

-- How far a write comes before it fails: to nothing of the two files, to the image, which is renamed
-- into place, to as many characters of `.type`, which is truncated first, or to the end.
pub data Written : Type 0 where
  not_at_all body_only whole : Written
  type_cut : ℕ → Written

unfoldable pub write_cache : Written → ℕ → CachedImage → Option Entry → Option Entry
write_cache not_at_all now image before = before
write_cache body_only now image before = some (record {
  body = image.body;
  type = elim before [ none ↦ none | some e ↦ e.type ];
  modified = now;
})
write_cache (type_cut n) now image before =
    some (record { body = image.body; type = some (take n image.content_type); modified = now })
write_cache whole now image before =
    some (record { body = image.body; type = some image.content_type; modified = now })

-- The loop over the chunks; `none` where they exceed the cap.
unfoldable pub read_chunks : List ℕ → List (List ℕ) → Option (List ℕ)
read_chunks read [] = some read
read_chunks read (c ∷ cs) =
    let rest = read_chunks (read ++ c) cs in
    if ltb max_image_bytes (length (read ++ c)) then none else rest

-- The answer to the request, up to where it throws: the chunks, and whether they end.
pub data ImageReply : Type 0 where
  unreachable : ImageReply
  image_reply : ℕ → Text → List (List ℕ) → Bool → ImageReply

-- `split(';')[0]`
abbrev pub before_semicolon : Text → Text
before_semicolon [] = []
before_semicolon (c ∷ s) = if c == b';' then [] else c ∷ before_semicolon s

unfoldable pub fetch_upstream : ImageReply → Option CachedImage
unfolding read_chunks
fetch_upstream unreachable = none
fetch_upstream (image_reply status header chunks ends) =
    let content_type = map to_lower_char (trim (before_semicolon header)) in
    if not (status == 200) || not (is_allowed_type content_type) || not ends
    then none
    else elim (read_chunks [] chunks) [
      | none ↦ none
      | some body ↦ some (record { body = body; content_type = content_type })
    ]

module _ (hash : Text → Text) where
  unfoldable pub put_entry : Cache → Text → Option Entry → Cache
  put_entry cache key entry other = if text_eq other key then entry else cache other

  -- `getPoster`: the image, if there is one, and the cache after it.
  unfoldable pub get_poster : ℕ → ImageReply → Written → Text → Cache → Option CachedImage × Cache
  unfolding read_cache write_cache fetch_upstream put_entry
  get_poster now reply written filename cache = elim (read_cache now (cache (hash filename))) [
    | some image ↦ (some image, cache)
    | none ↦ elim (fetch_upstream reply) [
      | none ↦ (none, cache)
      | some image ↦ (
        some image,
        put_entry cache (hash filename) (write_cache written now image (cache (hash filename))),
      )
    ]
  ]

  -- The handler of the route; the headers of its answer show the content type.
  unfoldable pub serve_poster : ℕ → ImageReply → Written → Text → Cache → Result CachedImage × Cache
  unfolding is_valid_image_name get_poster
  serve_poster now reply written filename cache =
      let (image, after) = get_poster now reply written filename cache in
      if is_valid_image_name filename
      then (or_throw image not_found, after)
      else (err bad_request, cache)
