-- ===== src/Circleftp/Client.antt =====
-- circleftp/client.ts: requests to the upstream API, with up to three attempts. What the network
-- answers to each attempt is an argument; so is `JSON.parse`, which gives `none` where it throws.
-- The delays between the attempts are left out.
pub mod Laws
mod Tests
use circleftp_jellyfin.Base.{
  ℕ, zero, suc, ◌+◌, List, [], ◌∷◌, Option, none, some, Bool, true, false, ◌&&◌, ◌||◌,
  if◌then◌else◌, leb, ◌==◌, get_or_else, any, is_none,
}
use circleftp_jellyfin.Base.Text.{Text, text_eq, trim}
use circleftp_jellyfin.Circleftp.Types.{RawPost}

-- What a request meets: it throws, before or while the body is read, or it is answered.
pub data Reply : Type 0 where
  unreachable : Reply
  answered : ℕ → Text → Reply

-- How a call ends: with a value, with a `CircleFtpError` and its status, or with another error.
pub data Answer {ℓ} (A : Type ℓ) : Type ℓ where
  fetched : A → Answer A
  failed : Option ℕ → Answer A
  crashed : Answer A

unfoldable pub is_retryable : ℕ → Bool
is_retryable status = any (λ s. status == s) (429 ∷ 500 ∷ 502 ∷ 503 ∷ 504 ∷ [])

abbrev pub max_attempts : ℕ
max_attempts = 3

-- The end of an attempt: an answer that stands, or another round of the loop.
pub data Attempt {ℓ} (A : Type ℓ) : Type ℓ where
  settled : Answer A → Attempt A
  again : Attempt A

module _ {ℓ} {A : Type ℓ} (parse : Text → Option A) where
  -- `response.body.text()` and what follows it.
  unfoldable pub read_body : Text → Answer A
  read_body body =
      if text_eq (trim body) []
      then failed (some 404)
      else elim (parse body) [ none ↦ failed none | some a ↦ fetched a ]

  -- One round; the flag is `attempt < MAX_ATTEMPTS`.
  unfoldable pub try_once : Bool → Reply → Attempt A
  unfolding is_retryable read_body
  try_once more unreachable = again
  try_once more (answered status body) =
      if status == 404
      then settled (failed (some 404))
      else if leb 400 status
      then if is_retryable status && more then again else settled (failed (some status))
      else settled (read_body body)

  -- The rounds that are left, with the replies to them: the number of requests made, and the end.
  unfoldable pub attempts : ℕ → (ℕ → Reply) → ℕ × Answer A
  unfolding try_once
  attempts zero replies = (0, failed none)
  attempts (suc left) replies =
      let (requests, answer) = attempts left (λ n. replies (suc n)) in
      elim (try_once (leb 1 left) (replies 0)) [
        | settled a ↦ (1, a)
        | again ↦ (suc requests, answer)
      ]

  unfoldable pub get_json : (ℕ → Reply) → ℕ × Answer A
  unfolding attempts
  get_json replies = attempts max_attempts replies

-- What `/posts` answers: a list, an object with or without a list of posts, or `null`.
pub data SearchBody : Type 0 where
  bare : List (Option RawPost) → SearchBody
  wrapped : Option (List (Option RawPost)) → SearchBody
  null_body : SearchBody

abbrev pub posts_of : Answer SearchBody → Answer (List (Option RawPost))
posts_of (fetched (bare posts)) = fetched posts
posts_of (fetched (wrapped posts)) = fetched (get_or_else posts [])
posts_of (fetched null_body) = crashed
posts_of (failed status) = failed status
posts_of crashed = crashed

unfoldable pub raw_search :
    (Text → Option SearchBody) → (ℕ → Reply) → Answer (List (Option RawPost))
unfolding get_json
raw_search parse replies = posts_of (get_json parse replies).1

-- `none` is a body that is no object.
abbrev pub post_of : Answer (Option RawPost) → Answer RawPost
post_of (fetched none) = failed (some 404)
post_of (fetched (some post)) = if is_none post.id then failed (some 404) else fetched post
post_of (failed status) = failed status
post_of crashed = crashed

unfoldable pub fetch_post : (Text → Option (Option RawPost)) → (ℕ → Reply) → Answer RawPost
unfolding get_json
fetch_post parse replies = post_of (get_json parse replies).1
