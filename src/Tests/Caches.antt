-- ===== src/Tests/Caches.antt =====
-- The cache of the query service at concrete interleavings.
use mori_soc.Prelude.{All, ℕ, String, ◌≡◌, refl, Option, none, some, List, [], ◌∷◌, map}
use mori_soc.Prelude.Dict.{get, put}
use mori_soc.QueryCache.{Event, tick, enter, look, compute, fill, Answer, start_system, run}
use mori_soc.QueryCache.Staleness.{IsFresh, answers-IsFresh}

-- Every setting reads as ten.
abbrev read_ten : String → Option ℕ
read_ten s = some 10

-- A service that knows when it was made.
abbrev made_at : ℕ → ℕ
made_at now = now

-- The first thread fills the cache after the second one, with an older time; the third one is answered
-- from the cache.
abbrev race : List Event
race =
    enter "a" (some "10")
    ∷ look "a"
    ∷ tick 2
    ∷ compute "a"
    ∷ tick 3
    ∷ enter "b" (some "10")
    ∷ look "b"
    ∷ compute "b"
    ∷ fill "b"
    ∷ fill "a"
    ∷ tick 1
    ∷ enter "c" (some "10")
    ∷ look "c"
    ∷ []

race_answers :
    map
      (λ (a : Answer ℕ). a.service)
      (run read_ten none (some made_at) made_at (start_system 0) race).answers
    ≡ 2 ∷ 2 ∷ 5 ∷ []
unfolding run get put
race_answers = refl

answers-IsFresh_example :
    All
      (IsFresh made_at (run read_ten none (some made_at) made_at (start_system 0) race).clock)
      (run read_ten none (some made_at) made_at (start_system 0) race).answers
answers-IsFresh_example = answers-IsFresh made_at read_ten made_at 0 race
