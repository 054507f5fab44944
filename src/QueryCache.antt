-- ===== src/QueryCache.antt =====
-- The cache of the query service: src/mori_soc/api/query_cache.py, with calls on several threads, whose
-- steps interleave. What the factory returns is a function of the time at which it is called; times
-- are in microseconds. The reading of a float is a parameter, which has a negative number or NaN as 0.
use mori_soc.Prelude.{
  ltb, eqb, if◌then◌else◌, ℕ, ◌+◌, String, Bool, not, Option, none, some, List, [], ◌∷◌,
}
use mori_soc.Prelude.Dict.{Dict, get, put}
pub mod Staleness

-- Where a thread stands in a call of `get`, with the local variables `now` and `ttl`.
pub data Thread {ℓ} (Service : Type ℓ) : Type ℓ where
  idle : Thread Service
  timed : ℕ → ℕ → Thread Service
  missed : ℕ → ℕ → Thread Service
  computed : ℕ → ℕ → Service → Thread Service

-- A call that has returned, with the time of its clock and its TTL.
pub record Answer {ℓ} (Service : Type ℓ) : Type ℓ where
  pub began : ℕ
  pub ttl : ℕ
  pub service : Service

-- `cache` holds "svc" with "ts".
pub record System {ℓ} (Service : Type ℓ) : Type ℓ where
  pub clock : ℕ
  pub cache : Option (Service × ℕ)
  pub threads : Dict (Thread Service)
  pub answers : List (Answer Service)

-- Time passes, or a thread goes on: it enters `get` while the environment holds a text, takes the lock to
-- look at the cache, calls the factory, or takes the lock to fill the cache.
pub data Event : Type 0 where
  tick : ℕ → Event
  enter : String → Option String → Event
  look : String → Event
  compute : String → Event
  fill : String → Event

-- `cache.get("svc")` when it is younger than the TTL
abbrev pub hit {ℓ} : {Service : Type ℓ} → Option (Service × ℕ) → ℕ → ℕ → Option Service
hit none now ttl = none
hit (some (svc, ts)) now ttl = if ltb now (ts + ttl) then some svc else none

abbrev pub thread_of {ℓ} : {Service : Type ℓ} → System Service → String → Thread Service
thread_of s i = elim (get s.threads i) [ none ↦ idle | some t ↦ t ]

-- `_ttl`
abbrev pub ttl_of : (String → Option ℕ) → Option String → ℕ
ttl_of read_float none = 0
ttl_of read_float (some text) = elim (read_float text) as (λ _. ℕ) [ none ↦ 0 | some n ↦ n ]

-- Before the first call.
abbrev pub start_system {ℓ} : {Service : Type ℓ} → ℕ → System Service
start_system now = record { clock = now; cache = none; threads = []; answers = [] }

module _ {ℓ} {Service : Type ℓ} where
  -- A thread goes on to where it stands next.
  abbrev pub goes : System Service → String → Thread Service → System Service
  goes s i t = record s { threads = put s.threads i t }

  -- A thread returns.
  abbrev pub returns : System Service → String → ℕ → ℕ → Service → System Service
  returns s i now ttl svc = record s {
    threads = put s.threads i idle;
    answers = record { began = now; ttl = ttl; service = svc } ∷ s.answers;
  }

  module _ (read_float : String → Option ℕ) (service : Option Service)
      (service_factory : Option (ℕ → Service)) (create_default : ℕ → Service) where
    -- The call up to the clock.
    abbrev pub entered :
        System Service → String → ℕ → Option Service → Option (ℕ → Service) → System Service
    entered s i ttl (some svc) factory = returns s i s.clock 0 svc
    entered s i ttl none none = returns s i s.clock 0 (create_default s.clock)
    entered s i ttl none (some factory) =
        if eqb ttl 0 then returns s i s.clock 0 (factory s.clock) else goes s i (timed s.clock ttl)

    -- An event of a thread that stands elsewhere changes nothing.
    abbrev pub entered_from :
        System Service → String → Option String → Thread Service → System Service
    entered_from s i env idle = entered s i (ttl_of read_float env) service service_factory
    entered_from s i env _ = s

    abbrev pub answered : System Service → String → ℕ → ℕ → Option Service → System Service
    answered s i now ttl none = goes s i (missed now ttl)
    answered s i now ttl (some svc) = returns s i now ttl svc

    abbrev pub looked : System Service → String → Thread Service → System Service
    looked s i (timed now ttl) = answered s i now ttl (hit s.cache now ttl)
    looked s i _ = s

    abbrev pub computed_by :
        System Service → String → Option (ℕ → Service) → Thread Service → System Service
    computed_by s i (some factory) (missed now ttl) = goes s i (computed now ttl (factory s.clock))
    computed_by s i _ _ = s

    abbrev pub filled : System Service → String → Thread Service → System Service
    filled s i (computed now ttl svc) = returns (record s { cache = some (svc, now) }) i now ttl svc
    filled s i _ = s

    -- One step of the interleaving.
    unfoldable pub step : System Service → Event → System Service
    unfolding get put
    step s (tick d) = record s { clock = s.clock + d }
    step s (enter i env) = entered_from s i env (thread_of s i)
    step s (look i) = looked s i (thread_of s i)
    step s (compute i) = computed_by s i service_factory (thread_of s i)
    step s (fill i) = filled s i (thread_of s i)

    unfoldable pub run : System Service → List Event → System Service
    unfolding step
    run s [] = s
    run s (e ∷ es) = run (step s e) es
