-- ===== src/QueryCache/Staleness.antt =====
-- No call is answered with data older than its TTL, in every interleaving of the threads.
use mori_soc.Prelude.{
  ltb, ltb→lt, eqb, Bool-cases, All, ℕ, ◌+◌, ◌≤◌, ◌<◌, String, ◌≡◌, refl, ◌⊎◌, inl, inr, Option,
  none, some, List, [], ◌∷◌, ◌==◌, arith,
}
use mori_soc.Prelude.Dict.{get, put, get-put}
use mori_soc.QueryCache.{
  Thread, idle, timed, missed, computed, Answer, System, Event, tick, enter, look, compute, fill,
  hit, thread_of, start_system, ttl_of, goes, returns, entered, entered_from, answered, looked,
  computed_by, filled, step, run,
}

module _ {Service : Type 0} (factory : ℕ → Service) where
  -- The service was made by the factory between two times.
  pub record MadeIn (from to : ℕ) (svc : Service) : Type 0 where
    pub at : ℕ
    pub is_made : svc ≡ factory at
    pub since : from ≤ at
    pub until : at ≤ to

  -- The service of an answer was made before now, and after the call began or less than the TTL before.
  pub record IsFresh (now : ℕ) (a : Answer Service) : Type 0 where
    pub at : ℕ
    pub is_made : a.service ≡ factory at
    pub until : at ≤ now
    pub recent : (a.began ≤ at) ⊎ (a.began < at + a.ttl)

  abbrev CacheMade : ℕ → Option (Service × ℕ) → Type 0
  CacheMade now none = Unit
  CacheMade now (some (svc, ts)) = MadeIn ts now svc

  abbrev ThreadMade : ℕ → Thread Service → Type 0
  ThreadMade now idle = Unit
  ThreadMade now (timed began ttl) = began ≤ now
  ThreadMade now (missed began ttl) = began ≤ now
  ThreadMade now (computed began ttl svc) = MadeIn began now svc

  record Sound (s : System Service) : Type 0 where
    cache : CacheMade s.clock s.cache
    threads : (i : String) → ThreadMade s.clock (thread_of s i)
    answers : All (IsFresh s.clock) s.answers

  later_cache : (o : Option (Service × ℕ)) (now d : ℕ) → CacheMade now o → CacheMade (now + d) o
  later_cache none now d h = tt
  later_cache (some (svc, ts)) now d h = record {
    at = h.at;
    is_made = h.is_made;
    since = h.since;
    until = omega (arith, h.until);
  }

  later_thread : (t : Thread Service) (now d : ℕ) → ThreadMade now t → ThreadMade (now + d) t
  later_thread idle now d h = tt
  later_thread (timed began ttl) now d h = omega (arith, h)
  later_thread (missed began ttl) now d h = omega (arith, h)
  later_thread (computed began ttl svc) now d h = record {
    at = h.at;
    is_made = h.is_made;
    since = h.since;
    until = omega (arith, h.until);
  }

  later_answers :
      (xs : List (Answer Service)) (now d : ℕ) → All (IsFresh now) xs → All (IsFresh (now + d)) xs
  later_answers [] now d h = tt
  later_answers (a ∷ xs) now d h =
      let x = h.0 in
      (
        record {
          at = x.at;
          is_made = x.is_made;
          until = omega (arith, x.until);
          recent = x.recent;
        },
        later_answers xs now d h.1,
      )

  thread_of-put :
      (s : System Service) (i : String) (t : Thread Service) (now : ℕ)
      → ((j : String) → ThreadMade now (thread_of s j))
      → ThreadMade now t
      → (j : String) → ThreadMade now (thread_of (record s { threads = put s.threads i t }) j)
  thread_of-put s i t now h ht j =
      rw (thread_of, get-put s.threads i j t)
        (elim (Bool-cases (i == j)) [ inl p ↦ rw (p) ht | inr q ↦ rw (q) (h j) ])

  goes-Sound :
      (s : System Service) (i : String) (t : Thread Service)
      → Sound s
      → ThreadMade s.clock t
      → Sound (goes s i t)
  goes-Sound s i t h ht = record {
    cache = h.cache;
    threads = thread_of-put s i t s.clock h.threads ht;
    answers = h.answers;
  }

  returns-Sound :
      (s : System Service) (i : String) (now ttl : ℕ) (svc : Service)
      → Sound s
      → IsFresh s.clock (record { began = now; ttl = ttl; service = svc })
      → Sound (returns s i now ttl svc)
  returns-Sound s i now ttl svc h fresh = record {
    cache = h.cache;
    threads = thread_of-put s i idle s.clock h.threads tt;
    answers = (fresh, h.answers);
  }

  module _ (read_float : String → Option ℕ) (create_default : ℕ → Service) where
    entered-Sound :
        (s : System Service) (i : String) (ttl : ℕ)
        → Sound s
        → Sound (entered read_float none (some factory) create_default s i ttl none (some factory))
    entered-Sound s i ttl h = elim (Bool-cases (eqb ttl 0)) [
      | inl p ↦ rw (p) (
          returns-Sound s i s.clock 0 (factory s.clock) h (record {
            at = s.clock;
            is_made = refl;
            until = omega arith;
            recent = inl (omega arith);
          }))
      | inr q ↦ rw (q) (goes-Sound s i (timed s.clock ttl) h (omega arith))
    ]

    entered_from-Sound :
        (s : System Service) (i : String) (env : Option String) (t : Thread Service)
        → Sound s
        → Sound (entered_from read_float none (some factory) create_default s i env t)
    entered_from-Sound s i env idle h = entered-Sound s i (ttl_of read_float env) h
    entered_from-Sound s i env (timed now ttl) h = h
    entered_from-Sound s i env (missed now ttl) h = h
    entered_from-Sound s i env (computed now ttl svc) h = h

    answered-Sound :
        (s : System Service) (i : String) (now ttl : ℕ) (o : Option (Service × ℕ))
        → Sound s
        → CacheMade s.clock o
        → now ≤ s.clock
        → Sound (answered read_float none (some factory) create_default s i now ttl (hit o now ttl))
    answered-Sound s i now ttl none h c b = goes-Sound s i (missed now ttl) h b
    answered-Sound s i now ttl (some (svc, ts)) h c b = elim (Bool-cases (ltb now (ts + ttl))) [
      | inl p ↦ rw (p) (
          returns-Sound s i now ttl svc h (record {
            at = c.at;
            is_made = c.is_made;
            until = c.until;
            recent = inr (omega (arith, ltb→lt now (ts + ttl) p, c.since));
          }))
      | inr q ↦ rw (q) (goes-Sound s i (missed now ttl) h b)
    ]

    looked-Sound :
        (s : System Service) (i : String) (t : Thread Service)
        → Sound s
        → ThreadMade s.clock t
        → Sound (looked read_float none (some factory) create_default s i t)
    looked-Sound s i idle h ht = h
    looked-Sound s i (timed now ttl) h ht = answered-Sound s i now ttl s.cache h h.cache ht
    looked-Sound s i (missed now ttl) h ht = h
    looked-Sound s i (computed now ttl svc) h ht = h

    computed_by-Sound :
        (s : System Service) (i : String) (t : Thread Service)
        → Sound s
        → ThreadMade s.clock t
        → Sound (computed_by read_float none (some factory) create_default s i (some factory) t)
    computed_by-Sound s i idle h ht = h
    computed_by-Sound s i (timed now ttl) h ht = h
    computed_by-Sound s i (missed now ttl) h ht =
        goes-Sound s i (computed now ttl (factory s.clock)) h
          (record { at = s.clock; is_made = refl; since = ht; until = omega arith })
    computed_by-Sound s i (computed now ttl svc) h ht = h

    filled-Sound :
        (s : System Service) (i : String) (t : Thread Service)
        → Sound s
        → ThreadMade s.clock t
        → Sound (filled read_float none (some factory) create_default s i t)
    filled-Sound s i idle h ht = h
    filled-Sound s i (timed now ttl) h ht = h
    filled-Sound s i (missed now ttl) h ht = h
    filled-Sound s i (computed now ttl svc) h ht =
        returns-Sound (record s { cache = some (svc, now) }) i now ttl svc
          (record { cache = ht; threads = h.threads; answers = h.answers })
          (record { at = ht.at; is_made = ht.is_made; until = ht.until; recent = inl ht.since })

    step-Sound :
        (s : System Service) (e : Event)
        → Sound s
        → Sound (step read_float none (some factory) create_default s e)
    unfolding step
    step-Sound s (tick d) h = record {
      cache = later_cache s.cache s.clock d h.cache;
      threads = λ i. later_thread (thread_of s i) s.clock d (h.threads i);
      answers = later_answers s.answers s.clock d h.answers;
    }
    step-Sound s (enter i env) h = entered_from-Sound s i env (thread_of s i) h
    step-Sound s (look i) h = looked-Sound s i (thread_of s i) h (h.threads i)
    step-Sound s (compute i) h = computed_by-Sound s i (thread_of s i) h (h.threads i)
    step-Sound s (fill i) h = filled-Sound s i (thread_of s i) h (h.threads i)

    run-Sound :
        (es : List Event) (s : System Service)
        → Sound s
        → Sound (run read_float none (some factory) create_default s es)
    unfolding run
    run-Sound [] s h = h
    run-Sound (e ∷ es) s h =
        run-Sound es (step read_float none (some factory) create_default s e) (step-Sound s e h)

    -- However the calls of the threads interleave, the service that a call is answered with was made by
    -- the factory, no earlier than the call began or else within the TTL of the call before it began: the
    -- staleness of an answer is below the TTL.
    pub answers-IsFresh :
        (now : ℕ) (es : List Event)
        → let s = run read_float none (some factory) create_default (start_system now) es in
          All (IsFresh s.clock) s.answers
    unfolding get
    answers-IsFresh now es =
        let start : Sound (start_system now) = record {
          cache = tt;
          threads = λ i. tt;
          answers = tt;
        } in
        (run-Sound es (start_system now) start).answers
