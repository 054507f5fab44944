-- ===== src/Access.antt =====
-- Who is let in: the login with its lockout and the logout, src/mori_soc/api/routes/auth.py, and the
-- session middleware, src/mori_soc/api/auth.py. A time is its number of microseconds.
use mori_soc.Prelude.{
  ltb, leb, if◌then◌else◌, length, select, contains, strip, lower, read_int, starts_with, ℕ, ◌+◌,
  ◌-◌, ◌*◌, ◌/◌, ◌<◌, String, ◌<>◌, Bool, true, false, not, ◌&&◌, ◌||◌, Option, none, some, List,
  [], ◌∷◌, ◌++◌, ◌==◌,
}
use mori_soc.Prelude.Dict.{Dict, get, or_value, put, remove}
use mori_soc.RateLimit.{at_least_one, Request, client_ip, in_window, earliest}
pub mod Lockout
pub mod Sessions

-- A time that is not there is `none`; one that is there can be read, as the login wrote it.
pub record Session : Type 0 where
  pub username : String
  pub role : String
  pub created_at : Option ℕ
  pub last_seen : Option ℕ

pub record AccessState : Type 0 where
  pub failures : Dict (List ℕ)
  pub sessions : Dict Session

-- `max(1, int(…))`, in `_login_cfg`
unfoldable pub max_failures : Dict String → ℕ
unfolding get read_int
max_failures env = at_least_one env "MORI_LOGIN_MAX_FAILURES" 5

unfoldable pub lockout_window : Dict String → ℕ
unfolding get read_int
lockout_window env = at_least_one env "MORI_LOGIN_LOCKOUT_SECONDS" 900 * 1000000

abbrev pub login_key : String → String → String
login_key username ip = lower username <> "|" <> ip

abbrev pub recent_failures : ℕ → ℕ → List ℕ → List ℕ
recent_failures w now fails = select (in_window w now) fails

-- `_login_locked_seconds` of the recent failures: 0 if the account is not locked.
unfoldable pub locked_seconds : ℕ → ℕ → ℕ → List ℕ → ℕ
unfolding earliest
locked_seconds max_fail w now [] = if leb max_fail 0 then w / 1000000 + 1 else 0
locked_seconds max_fail w now (t ∷ fails) =
    if leb max_fail (length (t ∷ fails)) then (w + earliest t fails - now) / 1000000 + 1 else 0

pub data LoginReply : Type 0 where
  missing : LoginReply
  locked : ℕ → LoginReply
  rejected : LoginReply
  welcome : String → LoginReply

-- The check of the credentials, the role of a user, and the new token are parameters.
module _ (env : Dict String) (verify_credentials : String → String → Bool)
    (role_of : String → String) where
  -- The failures of one key after an attempt, and whether it is let in.
  abbrev pub attempt : ℕ → Bool → List ℕ → Option Bool × List ℕ
  attempt now ok fails =
      let recent = recent_failures (lockout_window env) now fails in
      if ltb 0 (locked_seconds (max_failures env) (lockout_window env) now recent)
      then (none, recent)
      else if not ok
      then (some false, recent ++ now ∷ [])
      else (some true, [])

  unfoldable pub auth_login :
      AccessState → String → String → Request → String → ℕ → LoginReply × AccessState
  unfolding strip lower client_ip get put remove max_failures lockout_window locked_seconds
  auth_login s given password request token now =
      let username = strip given in
      if username == "" || password == ""
      then (missing, s)
      else (let key = login_key username (client_ip request) in
          let recent =
            recent_failures (lockout_window env) now (or_value (get s.failures key) []) in
          let locked_for = locked_seconds (max_failures env) (lockout_window env) now recent in
          let failures = put s.failures key recent in
          if ltb 0 locked_for
          then (locked locked_for, record s { failures = failures })
          else if not (verify_credentials username password)
          then (rejected, record s { failures = put failures key (recent ++ now ∷ []) })
          else (
            welcome token,
            record s {
              failures = remove failures key;
              sessions = put s.sessions token (record {
                username = username;
                role = role_of username;
                created_at = some now;
                last_seen = some now;
              });
            },
          ))

unfoldable pub auth_logout : AccessState → String → AccessState
unfolding remove
auth_logout s token = record s { sessions = remove s.sessions token }

unfoldable pub session_idle : Dict String → ℕ
unfolding get read_int
session_idle env = at_least_one env "MORI_SESSION_IDLE_SECONDS" 28800 * 1000000

unfoldable pub session_absolute : Dict String → ℕ
unfolding get read_int
session_absolute env = at_least_one env "MORI_SESSION_ABSOLUTE_SECONDS" 604800 * 1000000

-- `now - t > limit`; a time that is not known has the age 0.
abbrev pub is_older : ℕ → Option ℕ → ℕ → Bool
is_older limit none now = false
is_older limit (some t) now = ltb (t + limit) now

abbrev pub session_expired : Dict String → Session → ℕ → Bool
session_expired env sess now =
    is_older (session_absolute env) sess.created_at now || (elim sess.last_seen [
      | none ↦ is_older (session_idle env) sess.created_at now
      | some t ↦ is_older (session_idle env) (some t) now
    ])

abbrev pub public_paths : List String
public_paths =
    "/login" ∷ "/signup-request" ∷ "/auth/login" ∷ "/auth/logout" ∷ "/auth/signup-request"
    ∷ "/auth/me" ∷ "/docs" ∷ "/openapi.json" ∷ "/redoc" ∷ "/health" ∷ "/health/live"
    ∷ "/health/ready" ∷ "/metrics" ∷ "/privacy/pii-rules.yml" ∷ "/privacy/flow-scanner.py"
    ∷ "/code-review/fullscan.py" ∷ "/code-review/scanners/manifest.json" ∷ []

unfoldable pub is_public : String → Bool
unfolding starts_with
is_public path =
    contains public_paths path
    || starts_with path "/redoc"
    || starts_with path "/static"
    || starts_with path "/ingest/"

abbrev pub csrf_methods : List String
csrf_methods = "POST" ∷ "PUT" ∷ "PATCH" ∷ "DELETE" ∷ []

pub record WebRequest : Type 0 where
  pub path : String
  pub method : String
  pub token : String
  pub origin : String
  pub host : String
  pub wants_html : Bool

pub data Gate : Type 0 where
  through : Gate
  cross_origin : Gate
  to_login : String → Gate
  unauthorized : Gate

abbrev pub turned_away : WebRequest → Gate
turned_away q = if q.wants_html then to_login q.path else unauthorized

-- `_origin_allowed` stands on `urlsplit`, and is a parameter.
abbrev pub is_cross_origin : (String → String → Bool) → WebRequest → Bool
is_cross_origin origin_allowed q =
    contains csrf_methods q.method && not (q.origin == "") && not (origin_allowed q.origin q.host)

-- A session that has expired is dropped, any other is marked as seen.
abbrev pub gate :
    Dict String
    → (String → String → Bool)
    → Dict Session
    → WebRequest
    → ℕ
    → Option Session
    → Gate × Dict Session
gate env origin_allowed sessions q now none = (turned_away q, sessions)
gate env origin_allowed sessions q now (some sess) =
    if session_expired env sess now then (turned_away q, remove sessions q.token) else (
      if is_cross_origin origin_allowed q then cross_origin else through,
      put sessions q.token (record sess { last_seen = some now }),
    )

unfoldable pub check_session :
    Dict String → (String → String → Bool) → Dict Session → WebRequest → ℕ → Gate × Dict Session
unfolding session_idle session_absolute is_public get put remove
check_session env origin_allowed sessions q now =
    if is_public q.path
    then (through, sessions)
    else gate env origin_allowed sessions q now
        (if q.token == "" then none else get sessions q.token)
