-- ===== src/Circleftp/Posters/Laws.antt =====
-- Every poster that circleftp/imageCache.ts keeps or gives is a small image.
use circleftp_jellyfin.Base.{
  ℕ, ◌≤◌, ◌≡◌, ◌≢◌, refl, sym, zero, suc, ◌-◌, Bool, take, List, [], ◌∷◌, subst, ◌++◌, Option, none,
  some, true, false, ltb, length, all, any, map, All, Bool-cases, Option-cases, inl, inr, arith,
  get_or_else, eq_of_some,
}
use circleftp_jellyfin.Base.Text.{Text, codes, text_eq, text_eq_iff, is_space, trim, to_lower_char}
use circleftp_jellyfin.Base.Result.{ApiError, ok, or_throw, not_found}
use circleftp_jellyfin.Downloads.Paths.Laws.{IsSegment}
use circleftp_jellyfin.Circleftp.Posters.{
  max_image_bytes, cache_ttl, allowed_types, is_allowed_type, CachedImage, is_valid_image_name,
  is_name_char, Entry, Cache, type_or_jpeg, read_cache, Written, not_at_all, body_only, whole,
  type_cut, write_cache, read_chunks, ImageReply, unreachable, image_reply, before_semicolon,
  fetch_upstream, put_entry, get_poster, serve_poster,
}

-- An image of an allowed type and of at most eight megabytes.
pub record IsPoster (image : CachedImage) : Type 0 where
  pub small : length image.body ≤ max_image_bytes
  pub allowed : is_allowed_type image.content_type ≡ true

-- A file of the cache from which such an image is read.
pub record IsKept (e : Entry) : Type 0 where
  pub small : length e.body ≤ max_image_bytes
  pub allowed :
      is_allowed_type (type_or_jpeg (trim (get_or_else e.type (codes "image/jpeg")))) ≡ true

any_text-All :
    (P : Text → Type 0) (t : Text) (ts : List Text) → any (text_eq t) ts ≡ true → All P ts → P t
any_text-All P t [] h a = absurd (cc)
any_text-All P t (x ∷ xs) h (p, a) = elim (Bool-cases (text_eq t x)) [
  | inl e ↦ subst P (sym ((text_eq_iff t x).0 e)) p
  | inr e ↦ any_text-All P t xs (ground arith) a
]

-- The allowed types are texts that trimming leaves as they are.
allowed-trim :
    (t : Text) → is_allowed_type t ≡ true → is_allowed_type (type_or_jpeg (trim t)) ≡ true
unfolding is_space
allowed-trim t h =
    any_text-All (λ x. is_allowed_type (type_or_jpeg (trim x)) ≡ true) t allowed_types h
      (refl, (refl, (refl, (refl, (refl, tt)))))

jpeg-allowed : is_allowed_type (type_or_jpeg (trim (codes "image/jpeg"))) ≡ true
unfolding is_space
jpeg-allowed = refl

abbrev pub IsSafe : Cache → Type 0
IsSafe cache = (key : Text) (e : Entry) → cache key ≡ some e → IsKept e

read_chunks-small :
    (read : List ℕ) (cs : List (List ℕ)) (body : List ℕ)
    → length read ≤ max_image_bytes
    → read_chunks read cs ≡ some body
    → length body ≤ max_image_bytes
unfolding read_chunks
read_chunks-small read [] body l h = ground arith
read_chunks-small read (c ∷ cs) body l h =
    elim (Bool-cases (ltb max_image_bytes (length (read ++ c)))) [
      | inl e ↦ ground arith
      | inr e ↦ read_chunks-small (read ++ c) cs body (ground arith) (ground arith)
    ]

fetch_upstream-IsPoster :
    (r : ImageReply) (image : CachedImage) → fetch_upstream r ≡ some image → IsPoster image
unfolding fetch_upstream
fetch_upstream-IsPoster unreachable image h = ground arith
fetch_upstream-IsPoster (image_reply status header chunks ends) image h =
    let type = map to_lower_char (trim (before_semicolon header)) in
    elim (Bool-cases (is_allowed_type type)) [
      | inl a ↦ elim (Option-cases (read_chunks [] chunks)) [
        | inl e ↦ ground arith
        | inr (body, e) ↦
            let same : record { body = body; content_type = type } ≡ image = ground arith in
            subst IsPoster same
              (record { small = read_chunks-small [] chunks body (omega arith) e; allowed = a })
      ]
      | inr a ↦ ground arith
    ]

read_cache-IsPoster :
    (now : ℕ) (o : Option Entry) (image : CachedImage)
    → ((e : Entry) → o ≡ some e → IsKept e)
    → read_cache now o ≡ some image
    → IsPoster image
unfolding read_cache
read_cache-IsPoster now none image k h = ground arith
read_cache-IsPoster now (some e) image k h = elim (Bool-cases (ltb cache_ttl (now - e.modified))) [
  | inl old ↦ ground arith
  | inr fresh ↦
      subst IsPoster (eq_of_some (rw fresh at h))
        (record { small = (k e refl).small; allowed = (k e refl).allowed })
]

-- No write of `.type` stops within it, but before its first character.
abbrev pub is_torn : Written → Bool
is_torn (type_cut (suc n)) = true
is_torn _ = false

write_cache-IsKept :
    (w : Written) (now : ℕ) (image : CachedImage) (before : Option Entry) (e : Entry)
    → is_torn w ≡ false
    → IsPoster image
    → ((x : Entry) → before ≡ some x → IsKept x)
    → write_cache w now image before ≡ some e
    → IsKept e
unfolding write_cache is_space
write_cache-IsKept not_at_all now image before e u i k h = k e h
write_cache-IsKept body_only now image none e u i k h =
    subst IsKept (eq_of_some h) (record { small = i.small; allowed = jpeg-allowed })
write_cache-IsKept body_only now image (some x) e u i k h =
    subst IsKept (eq_of_some h) (record { small = i.small; allowed = (k x refl).allowed })
write_cache-IsKept (type_cut zero) now image before e u i k h =
    subst IsKept (eq_of_some h) (record { small = i.small; allowed = refl })
write_cache-IsKept (type_cut (suc n)) now image before e u i k h = cc
write_cache-IsKept whole now image before e u i k h =
    subst IsKept (eq_of_some h)
      (record { small = i.small; allowed = allowed-trim image.content_type i.allowed })

ok_of_throw :
    (o : Option CachedImage) (e : ApiError) (i : CachedImage) → or_throw o e ≡ ok i → o ≡ some i
ok_of_throw none e i h = ground arith
ok_of_throw (some j) e i h = ground arith

name_chars-no_slash : (s : Text) → all is_name_char s ≡ true → All (λ c. c ≢ b'/') s
name_chars-no_slash [] h = tt
name_chars-no_slash (c ∷ s) h = (λ e. ground arith, name_chars-no_slash s (ground arith))

valid_name-IsSegment : (s : Text) → is_valid_image_name s ≡ true → IsSegment s
unfolding is_valid_image_name
valid_name-IsSegment s h = record {
  nonempty = λ e. (let bad : false ≡ true = subst (λ x. is_valid_image_name x ≡ true) e h in cc);
  no_slash = name_chars-no_slash s (ground arith);
  not_dot = λ e. (let bad : false ≡ true = subst (λ x. is_valid_image_name x ≡ true) e h in cc);
  not_dots = λ e. (let bad : false ≡ true = subst (λ x. is_valid_image_name x ≡ true) e h in cc);
}

module _ (hash : Text → Text) where
  put_entry-IsSafe :
      (cache : Cache) (key : Text) (o : Option Entry)
      → IsSafe cache
      → ((e : Entry) → o ≡ some e → IsKept e)
      → IsSafe (put_entry hash cache key o)
  unfolding put_entry
  put_entry-IsSafe cache key o s k other e h = elim (Bool-cases (text_eq other key)) [
    | inl hit ↦ k e (rw hit at h)
    | inr miss ↦ s other e (rw miss at h)
  ]

  -- How `getPoster` ends: a cache that is safe, and a poster, if an image.
  record EndsWell (end : Option CachedImage × Cache) : Type 0 where
    image : (i : CachedImage) → end.0 ≡ some i → IsPoster i
    cache : IsSafe end.1

  get_poster-EndsWell :
      (now : ℕ) (reply : ImageReply) (w : Written) (filename : Text) (cache : Cache)
      → is_torn w ≡ false
      → IsSafe cache
      → EndsWell (get_poster hash now reply w filename cache)
  unfolding get_poster
  get_poster-EndsWell now reply w filename cache untorn s =
      elim (Option-cases (read_cache now (cache (hash filename)))) [
        | inr (i, e) ↦
            rw (get_poster, e)
              (record {
                image = λ j h.
                    subst IsPoster (eq_of_some h)
                      (read_cache-IsPoster now _ i (s (hash filename)) e);
                cache = s;
              })
        | inl e ↦ elim (Option-cases (fetch_upstream reply)) [
          | inl u ↦ rw (get_poster, e, u) (record { image = λ j h. absurd (cc); cache = s })
          | inr (i, u) ↦
              let p = fetch_upstream-IsPoster reply i u in
              rw (get_poster, e, u)
                (record {
                  image = λ j h. subst IsPoster (eq_of_some h) p;
                  cache = put_entry-IsSafe cache (hash filename) _ s (λ x.
                      write_cache-IsKept w now i (cache (hash filename)) x untorn p
                        (s (hash filename)));
                })
        ]
      ]

  -- Whatever a request for a poster asks and upstream answers, and wherever the write to the cache
  -- stops, if not after a part of the characters of `.type`: an image that is served has an allowed
  -- type, at most eight megabytes and a single path segment as its name; and every image that the
  -- cache holds afterwards has an allowed type and size, if those before it had.
  pub serve_poster-IsSafe :
      (now : ℕ) (reply : ImageReply) (w : Written) (filename : Text) (cache : Cache)
      → is_torn w ≡ false
      → IsSafe cache
      → ((i : CachedImage)
          → (serve_poster hash now reply w filename cache).0 ≡ ok i
          → IsPoster i × IsSegment filename)
        × IsSafe (serve_poster hash now reply w filename cache).1
  unfolding serve_poster
  serve_poster-IsSafe now reply w filename cache untorn s =
      let ends = get_poster-EndsWell now reply w filename cache untorn s in
      elim (Bool-cases (is_valid_image_name filename)) [
        | inl v ↦
            rw (serve_poster, v)
              (
                (λ i h.
                    (ends.image i (ok_of_throw _ not_found i h), valid_name-IsSegment filename v)),
                ends.cache,
              )
        | inr v ↦ rw (serve_poster, v) ((λ i h. absurd (cc)), s)
      ]

-- Where a write of `.type` has stopped after a part of its characters, the part is read as the type of
-- the image until the entry is too old.
pub read_cache-torn :
    (n now later : ℕ) (image : CachedImage) (before : Option Entry)
    → ltb cache_ttl (later - now) ≡ false
    → read_cache later (write_cache (type_cut n) now image before)
      ≡ some (record {
        body = image.body;
        content_type = type_or_jpeg (trim (take n image.content_type));
      })
unfolding read_cache write_cache
read_cache-torn n now later image before fresh = rw fresh refl
