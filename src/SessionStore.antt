-- ===== src/SessionStore.antt =====
-- The sessions that outlive a restart: `PersistentSessionDict` of src/mori_soc/api/session_store.py on
-- the table ui_sessions of src/mori_soc/repositories/state_postgres.py. Each call of the repository
-- says whether it reaches the database; a time is its number of microseconds.
use mori_soc.Prelude.{
  ltb, if◌then◌else◌, ℕ, ◌+◌, String, Bool, true, Option, none, some, List, [], ◌∷◌,
}
use mori_soc.Prelude.Dict.{Dict, get, is_some, put, remove}
use mori_soc.Access.{Session}
pub mod Restart

-- A row of ui_sessions.
pub record Row : Type 0 where
  pub session : Session
  pub expires_at : Option ℕ

-- The dict and the table.
pub record SessionStore : Type 0 where
  pub memory : Dict Session
  pub table : Dict Row

-- `expires_at IS NULL OR expires_at > now()`
abbrev pub is_live : ℕ → Option ℕ → Bool
is_live now none = true
is_live now (some t) = ltb now t

unfoldable pub load_sessions : ℕ → Dict Row → Dict Session
load_sessions now [] = []
load_sessions now ((token, row) ∷ d) =
    let rest = load_sessions now d in
    if is_live now row.expires_at then (token, row.session) ∷ rest else rest

-- 30 days
abbrev pub kept_for : ℕ
kept_for = 2592000000000

unfoldable pub save_session : Dict Row → String → Session → ℕ → Dict Row
unfolding put
save_session table token s now =
    put table token (record { session = s; expires_at = some (now + kept_for) })

unfoldable pub delete_session : Dict Row → String → Dict Row
unfolding remove
delete_session table token = remove table token

unfoldable pub delete_expired_sessions : ℕ → Dict Row → Dict Row
delete_expired_sessions now [] = []
delete_expired_sessions now ((token, row) ∷ d) =
    let rest = delete_expired_sessions now d in
    if is_live now row.expires_at then (token, row) ∷ rest else rest

-- The store at the start of the server: empty, if the table cannot be read.
unfoldable pub new_store : Bool → ℕ → Dict Row → SessionStore
unfolding load_sessions
new_store reached now table = record {
  memory = if reached then load_sessions now table else [];
  table = table;
}

-- What the login, the logout and the middleware do to the dict; `reached` is whether the repository
-- could be reached, had it been called.
pub data Request : Type 0 where
  assign : String → Session → ℕ → Bool → Request
  delete : String → Bool → Request
  pop : String → Option Session → Bool → Request
  -- `sessions[token]["last_seen"] = now`, in place
  touch : String → ℕ → Request

pub data Reply : Type 0 where
  done : Reply
  value : Session → Reply
  key_error : Reply

unfoldable pub delete_persisted : Dict Row → String → Bool → Dict Row
unfolding delete_session
delete_persisted table token reached = if reached then delete_session table token else table

-- `dict.pop` and `dict.__delitem__`
abbrev pub popped : Option Session → Option Session → Reply
popped (some s) d = value s
popped none (some d) = value d
popped none none = key_error

abbrev pub deleted : Option Session → Reply
deleted none = key_error
deleted (some _) = done

abbrev pub touched : Dict Session → String → ℕ → Option Session → Dict Session × Reply
touched d token now none = (d, key_error)
touched d token now (some s) = (put d token (record s { last_seen = some now }), done)

unfoldable pub step : SessionStore → Request → SessionStore × Reply
unfolding get put remove save_session delete_persisted
step s (assign token session now reached) = (
  record {
    memory = put s.memory token session;
    table = if reached then save_session s.table token session now else s.table;
  },
  done,
)
step s (delete token reached) =
    let found = get s.memory token in
    if is_some found
    then (
      record { memory = remove s.memory token; table = delete_persisted s.table token reached },
      deleted found,
    )
    else (s, deleted found)
step s (pop token default reached) =
    let found = get s.memory token in
    if is_some found
    then (
      record { memory = remove s.memory token; table = delete_persisted s.table token reached },
      popped found default,
    )
    else (s, popped found default)
step s (touch token now) =
    let (memory, reply) = touched s.memory token now (get s.memory token) in
    (record s { memory = memory }, reply)

-- A plain dict, which takes the place of the store without the setting.
unfoldable pub dict_step : Dict Session → Request → Dict Session × Reply
unfolding get put remove
dict_step d (assign token session now reached) = (put d token session, done)
dict_step d (delete token reached) = (remove d token, deleted (get d token))
dict_step d (pop token default reached) = (remove d token, popped (get d token) default)
dict_step d (touch token now) = touched d token now (get d token)

unfoldable pub run : SessionStore → List Request → SessionStore × List Reply
unfolding step
run s [] = (s, [])
run s (r ∷ rs) =
    let (next, reply) = step s r in let (last, replies) = run next rs in (last, reply ∷ replies)

unfoldable pub dict_run : Dict Session → List Request → Dict Session × List Reply
unfolding dict_step
dict_run d [] = (d, [])
dict_run d (r ∷ rs) =
    let (next, reply) = dict_step d r in
    let (last, replies) = dict_run next rs in (last, reply ∷ replies)
