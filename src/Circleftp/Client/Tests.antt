-- ===== src/Circleftp/Client/Tests.antt =====
-- The theorems on circleftp/client.ts at concrete inputs.
use circleftp_jellyfin.Base.{ℕ, zero, suc, ◌<◌, ◌≡◌, refl, [], Option, none, some, true, arith}
use circleftp_jellyfin.Base.Text.{Text, codes, text_eq, is_space}
use circleftp_jellyfin.Circleftp.Client.{
  Reply, unreachable, answered, fetched, crashed, null_body, get_json, attempts, try_once,
  raw_search, is_retryable, read_body, max_attempts,
}
use circleftp_jellyfin.Circleftp.Client.Laws.{is_transient, Ends, get_json-definite, get_json-Ends}

-- Only `[]` is a text that parses.
abbrev parse : Text → Option ℕ
parse t = elim (text_eq t (codes "[]")) [ true ↦ some 0 | _ ↦ none ]

-- The network fails, then the server is overloaded, then it answers.
abbrev replies : ℕ → Reply
replies zero = unreachable
replies (suc zero) = answered 503 []
replies (suc (suc n)) = answered 200 (codes "[]")

passing : (i : ℕ) → i < 2 → is_transient (replies i) ≡ true
unfolding is_retryable
passing zero l = refl
passing (suc zero) l = refl
passing (suc (suc i)) l = absurd (omega arith)

get_json-definite_example : get_json parse replies ≡ (3, fetched 0)
unfolding is_retryable read_body is_space
get_json-definite_example = get_json-definite parse replies 2 (omega arith) passing refl

Ends-parsed : (k : ℕ) × Ends parse replies max_attempts (get_json parse replies) k
Ends-parsed = get_json-Ends parse replies

-- A body that says `null` makes the search throw what no caller expects.
null_crashes : raw_search (λ t. some null_body) (λ n. answered 200 (codes "null")) ≡ crashed
unfolding raw_search attempts try_once is_retryable read_body is_space
null_crashes = refl
