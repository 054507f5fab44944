-- ===== src/Tests/Restarts.antt =====
-- The session store at concrete inputs.
use mori_soc.Prelude.{◌≡◌, refl, true, false, none, some, List, [], ◌∷◌}
use mori_soc.Prelude.Dict.{get}
use mori_soc.Access.{Session}
use mori_soc.SessionStore.{
  SessionStore, load_sessions, new_store, Request, run, dict_run, assign, pop, touch, done, value,
  key_error,
}
use mori_soc.SessionStore.Restart.{run_lem, core, restart_restores}

abbrev admin : Session
admin = record { username = "kim"; role = "admin"; created_at = some 5; last_seen = some 5 }

abbrev empty_store : SessionStore
empty_store = record { memory = []; table = [] }

-- A login that reaches the database, a request, and one login that does not.
abbrev requests : List Request
requests = assign "t1" admin 5 true ∷ touch "t1" 9 ∷ assign "t2" admin 7 false ∷ []

only_one_is_stored : get (load_sessions 10 (run empty_store requests).0.table) "t2" ≡ none
unfolding run get load_sessions
only_one_is_stored = refl

popped_twice :
    (run empty_store (assign "t1" admin 5 true ∷ pop "t1" none true ∷ pop "t1" none true ∷ [])).1
    ≡ done ∷ value admin ∷ key_error ∷ []
unfolding run
popped_twice = refl

run_lem_example :
    ((run empty_store requests).0.memory ≡ (dict_run [] requests).0)
    × ((run empty_store requests).1 ≡ (dict_run [] requests).1)
run_lem_example = run_lem requests empty_store

restart_restores_example :
    core (get (new_store true 10 (run empty_store requests).0.table).memory "t1")
    ≡ core (get (run empty_store requests).0.memory "t1")
restart_restores_example =
    restart_restores 10 "t1" requests empty_store tt (unfold new_store load_sessions get in refl)
      refl
