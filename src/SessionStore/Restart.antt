-- ===== src/SessionStore/Restart.antt =====
-- The store against a plain dict, and against itself after a restart.
use mori_soc.Prelude.{
  ltb, if◌then◌else◌, Option-cases, ℕ, ◌+◌, String, ◌≡◌, refl, sym, ap, ◌∙◌, inl, inr, Bool, true,
  false, ◌&&◌, Option, none, some, List, [], ◌∷◌, arith, ◌==◌, eq_iff,
}
use mori_soc.Prelude.Dict.{Dict, get, remove, get-put, get-remove, NodupKeys, put-NodupKeys}
use mori_soc.Access.{Session}
use mori_soc.SessionStore.{
  Row, SessionStore, is_live, load_sessions, kept_for, save_session, delete_session, new_store,
  Request, delete_persisted, touched, step, dict_step, run, dict_run, assign, delete, pop, touch,
}

remove_missing : (d : Dict Session) (k : String) → get d k ≡ none → remove d k ≡ d
unfolding get remove
remove_missing [] k h = refl
remove_missing ((j, w) ∷ d) k h = ground (arith, remove_missing d k)

step_lem :
    (s : SessionStore) (r : Request)
    → ((step s r).0.memory ≡ (dict_step s.memory r).0) × ((step s r).1 ≡ (dict_step s.memory r).1)
unfolding step dict_step
step_lem s (assign token session now reached) = (refl, refl)
step_lem s (delete token reached) = elim (Option-cases (get s.memory token)) [
  | inl e ↦ rw (e) (sym (remove_missing s.memory token e), refl)
  | inr (x, e) ↦ rw (e) (refl, refl)
]
step_lem s (pop token default reached) = elim (Option-cases (get s.memory token)) [
  | inl e ↦ rw (e) (sym (remove_missing s.memory token e), refl)
  | inr (x, e) ↦ rw (e) (refl, refl)
]
step_lem s (touch token now) = (refl, refl)

-- Whatever calls of the repository fail, the store answers every request as a plain dict does and holds
-- what the dict holds.
pub run_lem :
    (rs : List Request) (s : SessionStore)
    → ((run s rs).0.memory ≡ (dict_run s.memory rs).0) × ((run s rs).1 ≡ (dict_run s.memory rs).1)
unfolding run dict_run
run_lem [] s = (refl, refl)
run_lem (r ∷ rs) s =
    let (memory, reply) = step_lem s r in
    let (same, told) = run_lem rs (step s r).0 in
    (
      same ∙ ap (λ d. (dict_run d rs).0) memory,
      (λ i. reply i ∷ told i) ∙ ap (λ d. (dict_step s.memory r).1 ∷ (dict_run d rs).1) memory,
    )

module _ {ℓ} {V : Type ℓ} where
  remove-NodupKeys : (d : Dict V) (k : String) → NodupKeys d → NodupKeys (remove d k)
  unfolding get remove
  remove-NodupKeys [] k h = tt
  remove-NodupKeys ((j, w) ∷ d) k h =
      ground (arith, remove-NodupKeys d k h.1, get-remove d k j, eq_iff k j, eq_iff j k)

abbrev live_row : ℕ → Option Row → Option Session
live_row now none = none
live_row now (some row) = if is_live now row.expires_at then some row.session else none

-- What a restart at some time knows of a token.
get-load_sessions :
    (now : ℕ) (d : Dict Row) (k : String)
    → NodupKeys d
    → get (load_sessions now d) k ≡ live_row now (get d k)
unfolding get load_sessions
get-load_sessions now [] k h = refl
get-load_sessions now ((j, row) ∷ d) k h =
    ground (arith, get-load_sessions now d k h.1, get-load_sessions now d j h.1, eq_iff j k)

-- A session without the time at which it was last seen.
abbrev pub core : Option Session → Option Session
core none = none
core (some s) = some (record s { last_seen = none })

-- Whether the last write of the token reached the database, less than thirty days before a time.
abbrev pub written : ℕ → String → Bool → Request → Bool
written now token ok (assign t s at reached) =
    if t == token then reached && ltb now (at + kept_for) else ok
written now token ok (delete t reached) = if t == token then ok && reached else ok
written now token ok (pop t default reached) = if t == token then ok && reached else ok
written now token ok (touch t at) = ok

step-table_NodupKeys :
    (s : SessionStore) (r : Request) → NodupKeys s.table → NodupKeys (step s r).0.table
unfolding step save_session delete_persisted delete_session
step-table_NodupKeys s (assign token session now true) h =
    put-NodupKeys s.table token (record { session = session; expires_at = some (now + kept_for) }) h
step-table_NodupKeys s (assign token session now false) h = h
step-table_NodupKeys s (delete token reached) h = ground (arith, remove-NodupKeys s.table token h)
step-table_NodupKeys s (pop token default reached) h =
    ground (arith, remove-NodupKeys s.table token h)
step-table_NodupKeys s (touch token now) h = h

abbrev IsKept : ℕ → String → SessionStore → Type 0
IsKept now t s = core (live_row now (get s.table t)) ≡ core (get s.memory t)

removed-IsKept :
    (now : ℕ) (t token : String) (s : SessionStore) (ok reached : Bool)
    → (ok ≡ true → IsKept now t s)
    → (if token == t then ok && reached else ok) ≡ true
    → core (live_row now (get (delete_persisted s.table token reached) t))
      ≡ core (get (remove s.memory token) t)
unfolding delete_persisted delete_session
removed-IsKept now t token s ok true h w =
    ground (arith, h, get-remove s.table token t, get-remove s.memory token t)
removed-IsKept now t token s ok false h w = ground (arith, h, get-remove s.memory token t)

still-IsKept :
    (now : ℕ) (t token : String) (s : SessionStore) (ok reached : Bool)
    → (ok ≡ true → IsKept now t s)
    → (if token == t then ok && reached else ok) ≡ true
    → IsKept now t s
still-IsKept now t token s ok reached h w = ground (arith, h)

touched-core :
    (t token : String) (d : Dict Session) (at : ℕ)
    → core (get (touched d token at (get d token)).0 t) ≡ core (get d t)
touched-core t token d at = elim (Option-cases (get d token)) [
  | inl e ↦ rw (e) refl
  | inr (x, e) ↦
      rw (e)
        (ground (arith, e, get-put d token t (record x { last_seen = some at }), eq_iff token t))
]

step-IsKept :
    (now : ℕ) (t : String) (s : SessionStore) (r : Request) (ok : Bool)
    → (ok ≡ true → IsKept now t s)
    → written now t ok r ≡ true
    → IsKept now t (step s r).0
unfolding step save_session
step-IsKept now t s (assign token session at true) ok h w = ground (
  arith,
  h,
  get-put s.table token t (record { session = session; expires_at = some (at + kept_for) }),
  get-put s.memory token t session,
)
step-IsKept now t s (assign token session at false) ok h w =
    ground (arith, h, get-put s.memory token t session)
step-IsKept now t s (delete token reached) ok h w = elim (Option-cases (get s.memory token)) [
  | inl e ↦ rw (e) (still-IsKept now t token s ok reached h w)
  | inr (x, e) ↦ rw (e) (removed-IsKept now t token s ok reached h w)
]
step-IsKept now t s (pop token default reached) ok h w = elim (Option-cases (get s.memory token)) [
  | inl e ↦ rw (e) (still-IsKept now t token s ok reached h w)
  | inr (x, e) ↦ rw (e) (removed-IsKept now t token s ok reached h w)
]
step-IsKept now t s (touch token at) ok h w = h w ∙ sym (touched-core t token s.memory at)

-- The same of a run, from what was true before it.
abbrev pub written_all : ℕ → String → Bool → List Request → Bool
written_all now t ok [] = ok
written_all now t ok (r ∷ rs) = written_all now t (written now t ok r) rs

run-IsKept :
    (now : ℕ) (t : String) (rs : List Request) (s : SessionStore) (ok : Bool)
    → (ok ≡ true → IsKept now t s)
    → written_all now t ok rs ≡ true
    → IsKept now t (run s rs).0
unfolding run
run-IsKept now t [] s ok h w = h w
run-IsKept now t (r ∷ rs) s ok h w =
    run-IsKept now t rs (step s r).0 (written now t ok r) (step-IsKept now t s r ok h) w

run-table_NodupKeys :
    (rs : List Request) (s : SessionStore) → NodupKeys s.table → NodupKeys (run s rs).0.table
unfolding run
run-table_NodupKeys [] s h = h
run-table_NodupKeys (r ∷ rs) s h = run-table_NodupKeys rs (step s r).0 (step-table_NodupKeys s r h)

-- A restart restores a session, apart from when it was last seen, or restores none where there is
-- none: if one before the run would, and the writes of that token since then reached the database, or
-- were followed by one of a new session that did, less than thirty days before the restart.
pub restart_restores :
    (now : ℕ) (t : String) (rs : List Request) (s : SessionStore)
    → NodupKeys s.table
    → core (get (new_store true now s.table).memory t) ≡ core (get s.memory t)
    → written_all now t true rs ≡ true
    → core (get (new_store true now (run s rs).0.table).memory t) ≡ core (get (run s rs).0.memory t)
unfolding new_store
restart_restores now t rs s h kept w =
    ap core (get-load_sessions now (run s rs).0.table t (run-table_NodupKeys rs s h))
    ∙ run-IsKept now t rs s true (λ _. ap core (sym (get-load_sessions now s.table t h)) ∙ kept) w

-- A logout whose delete does not reach the database is undone by a restart: the session is back.
pub restart_undoes_pop :
    (now : ℕ) (t : String) (s : SessionStore) (default : Option Session)
    → get (new_store true now (step s (pop t default false)).0.table).memory t
      ≡ get (new_store true now s.table).memory t
unfolding new_store step delete_persisted
restart_undoes_pop now t s default = ground arith
