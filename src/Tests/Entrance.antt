-- ===== src/Tests/Entrance.antt =====
-- The rate limit, the login and the sessions at concrete inputs.
use mori_soc.Prelude.{
  count_if, strip, ℕ, ◌≤◌, String, ◌≡◌, refl, Bool, true, false, ◌&&◌, none, some, List, [], ◌∷◌,
  arith, ◌==◌,
}
use mori_soc.Prelude.Dict.{Dict, get, put}
use mori_soc.RateLimit.{Request, dispatch, limited, passed}
use mori_soc.RateLimit.Window.{replies, answers, pruning_is_exact}
use mori_soc.RateLimit.Cap.{served, within, served_at_most}
use mori_soc.Access.{
  Session, AccessState, max_failures, lockout_window, session_expired, is_public, WebRequest,
  is_cross_origin, check_session,
}
use mori_soc.Access.Lockout.{rejections, rejections_at_most}
use mori_soc.Access.Sessions.{through_lem}

abbrev env : Dict String
env =
    ("MORI_RATELIMIT_INGEST_MAX", "2")
    ∷ ("MORI_RATELIMIT_WINDOW_SECONDS", "10")
    ∷ ("MORI_LOGIN_MAX_FAILURES", "2")
    ∷ []

abbrev push : Request
push = record {
  path = "/ingest/fleet";
  content_length = "12";
  forwarded_for = "10.0.0.1, 10.9.9.9";
  peer = none;
}

abbrev pushes : List (ℕ × Request)
pushes = (1000000, push) ∷ (2000000, push) ∷ (3000000, push) ∷ (30000000, push) ∷ []

replies_run : replies env [] pushes ≡ passed ∷ passed ∷ limited 9 ∷ passed ∷ []
unfolding dispatch
replies_run = refl

pruning_is_exact_example : replies env [] pushes ≡ answers env [] pushes
pruning_is_exact_example =
    pruning_is_exact env pushes (omega arith, (omega arith, (omega arith, (omega arith, tt))))

served_at_most_example : count_if (within 10 5) (served 10 2 [] (1 ∷ 2 ∷ 3 ∷ 14 ∷ [])) ≤ 2
served_at_most_example =
    served_at_most 10 2 (1 ∷ 2 ∷ 3 ∷ 14 ∷ [])
      (omega arith, (omega arith, (omega arith, (omega arith, tt)))) 5

abbrev nobody : AccessState
nobody = record { failures = []; sessions = [] }

abbrev only_kim : String → String → Bool
only_kim user password = user == "kim" && password == "secret"

abbrev as_user : String → String
as_user u = "user"

abbrev guesses : List (ℕ × String)
guesses = (1000000, "a") ∷ (2000000, "b") ∷ (3000000, "c") ∷ []

rejections_at_most_example :
    count_if
      (within (lockout_window env) 3000000)
      (rejections env only_kim as_user "kim" push "t" nobody guesses)
    ≤ max_failures env
unfolding strip get
rejections_at_most_example =
    rejections_at_most env only_kim as_user "kim" push "t" nobody guesses refl refl
      (omega arith, (omega arith, (omega arith, tt)))
      ((refl, refl), ((refl, refl), ((refl, refl), tt))) 3000000

abbrev kims : Session
kims = record { username = "kim"; role = "user"; created_at = some 0; last_seen = some 5 }

abbrev page : WebRequest
page = record {
  path = "/ui";
  method = "GET";
  token = "t1";
  origin = "";
  host = "soc.example";
  wants_html = true;
}

abbrev same_host : String → String → Bool
same_host origin host = origin == host

through_lem_example :
    (sess : Session) × (get (("t1", kims) ∷ []) "t1" ≡ some sess)
    × (session_expired env sess 6 ≡ false)
    × (is_cross_origin same_host page ≡ false)
    × (get (check_session env same_host (("t1", kims) ∷ []) page 6).1 "t1"
        ≡ some (record sess { last_seen = some 6 }))
unfolding is_public check_session get put
through_lem_example = through_lem env same_host (("t1", kims) ∷ []) page 6 refl refl
