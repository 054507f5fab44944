-- ===== src/RateLimit.antt =====
-- The sliding window of src/mori_soc/api/ratelimit.py. A time is its number of microseconds; the
-- environment is a dict.
use mori_soc.Prelude.{
  ltb, leb, if◌then◌else◌, length, select, or_text, contains, strip, lower, read_int, is_digits,
  starts_with, before_comma, ℕ, ◌+◌, ◌-◌, ◌*◌, ◌/◌, ◌<◌, min, max, String, ◌<>◌, Bool, true, false,
  not, ◌&&◌, Option, none, some, List, [], ◌∷◌, ◌++◌, ◌==◌,
}
use mori_soc.Prelude.Dict.{Dict, get, or_value, put}
pub mod Window
pub mod Cap

abbrev pub is_off : String → Bool
is_off v = contains ("0" ∷ "false" ∷ "no" ∷ "off" ∷ []) v

unfoldable pub enabled : Dict String → Bool
unfolding get strip lower
enabled env = not (is_off (lower (strip (or_value (get env "MORI_RATELIMIT_ENABLED") "true"))))

-- A number of the environment that is at least 1; what cannot be read is the default.
abbrev pub at_least_one : Dict String → String → ℕ → ℕ
at_least_one env name default = elim (get env name) [
  | none ↦ default
  | some s ↦ elim (read_int s) [ none ↦ default | some n ↦ max 1 n ]
]

unfoldable pub window : Dict String → ℕ
unfolding get read_int
window env = at_least_one env "MORI_RATELIMIT_WINDOW_SECONDS" 60 * 1000000

-- 0 or a negative number turns the test off.
unfoldable pub max_body_bytes : Dict String → ℕ
unfolding get read_int
max_body_bytes env = elim (get env "MORI_MAX_BODY_BYTES") [
  | none ↦ 10485760
  | some s ↦ elim (read_int s) [ none ↦ 10485760 | some n ↦ n ]
]

unfoldable pub limit_for : Dict String → String → Option (String × ℕ)
unfolding get read_int starts_with
limit_for env path =
    if starts_with path "/ingest/"
    then some ("/ingest/", at_least_one env "MORI_RATELIMIT_INGEST_MAX" 300)
    else if starts_with path "/auth/login"
    then some ("/auth/login", at_least_one env "MORI_RATELIMIT_LOGIN_MAX" 60)
    else none

-- What the middleware reads of a request; `peer` is the address of the connection, if there is one.
pub record Request : Type 0 where
  pub path : String
  pub content_length : String
  pub forwarded_for : String
  pub peer : Option String

unfoldable pub client_ip : Request → String
unfolding before_comma strip
client_ip request =
    if request.forwarded_for == ""
    then or_text (or_value request.peer "?") "?"
    else strip (before_comma request.forwarded_for)

pub data Reply : Type 0 where
  too_large : Reply
  -- `Retry-After`, in seconds
  limited : ℕ → Reply
  passed : Reply

abbrev pub in_window : ℕ → ℕ → ℕ → Bool
in_window w now t = ltb now (t + w)

unfoldable pub earliest : ℕ → List ℕ → ℕ
earliest t [] = t
earliest t (s ∷ r) = min s (earliest t r)

-- `int(window - (now - min(recent))) + 1`, at least 1; the list has the present call at its end.
abbrev pub retry_after : ℕ → ℕ → List ℕ → ℕ
retry_after w now recent = max 1 ((w + earliest now recent - now) / 1000000 + 1)

-- The answer to a request of one key, given its earlier times, and the times to keep.
abbrev pub count_hit : ℕ → ℕ → ℕ → List ℕ → Reply × List ℕ
count_hit w cap now times =
    let recent = select (in_window w now) times in
    if leb cap (length recent)
    then (limited (retry_after w now recent), recent ++ now ∷ [])
    else (passed, recent ++ now ∷ [])

abbrev pub is_too_large : Dict String → Request → Bool
is_too_large env request =
    ltb 0 (max_body_bytes env)
    && is_digits request.content_length
    && ltb (max_body_bytes env) (or_value (read_int request.content_length) 0)

abbrev pub key_of : String → Request → String
key_of prefix request = prefix <> "|" <> client_ip request

-- The limit that a request is under, if any: its key and its cap.
abbrev pub limited_by : Dict String → Request → Option (String × ℕ)
limited_by env request =
    if enabled env
    then elim (limit_for env request.path) [
      | none ↦ none
      | some (prefix, cap) ↦ some (key_of prefix request, cap)
    ]
    else none

unfoldable pub dispatch : Dict String → ℕ → Dict (List ℕ) → Request → Reply × Dict (List ℕ)
unfolding enabled window max_body_bytes limit_for client_ip get put is_digits read_int earliest
dispatch env now hits request =
    if is_too_large env request then (too_large, hits) else elim (limited_by env request) [
      | none ↦ (passed, hits)
      | some (key, cap) ↦
          let (reply, times) = count_hit (window env) cap now (or_value (get hits key) []) in
          (reply, put hits key times)
    ]
