-- ===== src/Downloads/Fetcher/Serving.antt =====
-- What downloads/fetcher.ts relies on in a file host: the documented meaning of the statuses 200,
-- 206 and 416 of HTTP, for one content that does not change. A body may stop anywhere.
use circleftp_jellyfin.Base.{
  ℕ, ◌≤◌, ◌≡◌, ◌⊎◌, refl, sym, ap, ◌∙◌, List, [], ◌∷◌, ◌++◌, Option, none, some, arith, length,
  length-append, append_assoc, append-nil, drop, take, take-append-drop,
}
use circleftp_jellyfin.Downloads.Disk.{Bytes}
use circleftp_jellyfin.Downloads.Fetcher.{Finish, ended}
use circleftp_jellyfin.Downloads.Fetcher.Transfer.{Tick, sent}

abbrev pub IsPrefix : Bytes → Bytes → Type 0
IsPrefix xs ys = (zs : Bytes) × (xs ++ zs ≡ ys)

pub IsPrefix-trans : (xs ys zs : Bytes) → IsPrefix xs ys → IsPrefix ys zs → IsPrefix xs zs
IsPrefix-trans xs ys zs (a, p) (b, q) = (a ++ b, sym (append_assoc xs a b) ∙ ap (λ l. l ++ b) p ∙ q)

pub take-IsPrefix : (n : ℕ) (xs : Bytes) → IsPrefix (take n xs) xs
take-IsPrefix n xs = (drop n xs, take-append-drop n xs)

pub length_of_IsPrefix : (xs ys : Bytes) → IsPrefix xs ys → length xs ≤ length ys
length_of_IsPrefix xs ys (a, p) = omega (arith, length-append xs a, ap length p)

-- A shorter tail is as good.
pub append_take-IsPrefix :
    (xs ys c : Bytes) (n : ℕ) → IsPrefix (xs ++ ys) c → IsPrefix (xs ++ take n ys) c
append_take-IsPrefix xs ys c n p =
    IsPrefix-trans (xs ++ take n ys) (xs ++ ys) c
      (drop n ys, append_assoc xs (take n ys) (drop n ys) ∙ ap (◌++◌ xs) (take-append-drop n ys)) p

-- A prefix that is as long as the whole is the whole.
pub eq_of_IsPrefix : (xs ys : Bytes) → IsPrefix xs ys → length ys ≤ length xs → xs ≡ ys
eq_of_IsPrefix xs ys ([], p) h = sym (append-nil xs) ∙ p
eq_of_IsPrefix xs ys (c ∷ a, p) h = absurd (omega (arith, length-append xs (c ∷ a), ap length p))

drop-append : (xs ys : Bytes) → drop (length xs) (xs ++ ys) ≡ ys
drop-append [] ys = refl
drop-append (x ∷ xs) ys = drop-append xs ys

-- What follows a prefix may be appended to it.
pub append-IsPrefix :
    (xs ys c : Bytes) → IsPrefix xs c → IsPrefix ys (drop (length xs) c) → IsPrefix (xs ++ ys) c
append-IsPrefix xs ys c (a, p) (b, q) =
    let tail : ys ++ b ≡ a = q ∙ ap (drop (length xs)) (sym p) ∙ drop-append xs a in
    (b, append_assoc xs ys b ∙ ap (◌++◌ xs) tail ∙ p)

pub append_drop_of_IsPrefix : (xs c : Bytes) → IsPrefix xs c → xs ++ drop (length xs) c ≡ c
append_drop_of_IsPrefix xs c (a, p) =
    ap (◌++◌ xs) (ap (drop (length xs)) (sym p) ∙ drop-append xs a) ∙ p

abbrev pub offset : Option ℕ → ℕ
offset none = 0
offset (some n) = n

-- The length of the whole content is announced, or a body that comes to its end is all of the rest: the
-- transfer coding says where it ends.
abbrev pub IsDelimited : Option ℕ → ℕ → Finish → Bytes → Bytes → Type 0
IsDelimited total size finish body rest =
    (total ≡ some size) ⊎ ((total ≡ none) × (finish ≡ ended → body ≡ rest))

-- The headers and the body of a response, against the content and the requested range.
module _ (content : Bytes) (range : Option ℕ) (status : ℕ) (total : ℕ → Option ℕ)
    (ticks : List Tick) (finish : Finish) where
  pub record Honest : Type 0 where
    pub unsatisfiable : status ≡ 416 → length content ≤ offset range
    pub partial :
        status ≡ 206
        → IsPrefix (sent ticks) (drop (offset range) content)
          × IsDelimited
              (total (offset range))
              (length content)
              finish
              (sent ticks)
              (drop (offset range) content)
    pub whole :
        status ≡ 200
        → IsPrefix (sent ticks) content
          × IsDelimited (total 0) (length content) finish (sent ticks) content
