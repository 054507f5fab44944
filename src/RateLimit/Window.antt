-- ===== src/RateLimit/Window.antt =====
-- The pruned window against the whole history of the requests.
use mori_soc.Prelude.{
  leb, if◌then◌else◌, Bool-cases, Option-cases, length, select, ℕ, ◌≤◌, String, ◌≡◌, refl, sym, ap,
  ◌∙◌, inl, inr, Bool, false, none, some, List, [], ◌∷◌, ◌++◌, arith, ◌==◌, eq_iff,
}
use mori_soc.Prelude.Dict.{Dict, get, or_value, put, get-put}
use mori_soc.RateLimit.{
  limited, passed, too_large, window, Request, Reply, in_window, retry_after, count_hit,
  is_too_large, limited_by, dispatch,
}

select-append {ℓ} :
    {A : Type ℓ} (p : A → Bool) (xs ys : List A) → select p (xs ++ ys) ≡ select p xs ++ select p ys
select-append p [] ys = refl
select-append p (x ∷ xs) ys = elim (Bool-cases (p x)) [
  | inl e ↦ rw e (ap (λ r. x ∷ r) (select-append p xs ys))
  | inr e ↦ rw e (select-append p xs ys)
]

-- What is outside an earlier window is outside a later one.
pub select-select :
    (w now later : ℕ) (ts : List ℕ)
    → now ≤ later
    → select (in_window w later) (select (in_window w now) ts) ≡ select (in_window w later) ts
select-select w now later [] h = refl
select-select w now later (t ∷ ts) h = elim (Bool-cases (in_window w now t)) [
  | inl e ↦ rw e (elim (Bool-cases (in_window w later t)) [
    | inl f ↦ rw f (ap (λ r. t ∷ r) (select-select w now later ts h))
    | inr f ↦ rw f (select-select w now later ts h)
  ])
  | inr e ↦
      let out : in_window w later t ≡ false = ground arith in
      rw (e, out) (select-select w now later ts h)
]

-- The whole history: every counted request, by its key and its time.
abbrev pub times_of : String → List (String × ℕ) → List ℕ
times_of key [] = []
times_of key ((k, t) ∷ r) = let rest = times_of key r in if k == key then t ∷ rest else rest

times_of-append :
    (key k : String) (t : ℕ) (log : List (String × ℕ))
    → times_of key (log ++ (k, t) ∷ [])
      ≡ (if k == key then times_of key log ++ t ∷ [] else times_of key log)
times_of-append key k t [] = refl
times_of-append key k t ((j, s) ∷ log) = elim (Bool-cases (k == key)) [
  | inl e ↦
      rw (times_of-append key k t log, e)
        (elim (Bool-cases (j == key)) [ inl f ↦ rw f refl | inr f ↦ rw f refl ])
  | inr e ↦ rw (times_of-append key k t log, e) refl
]

-- The same answers from the whole history, which is never pruned.
abbrev pub answer : Dict String → ℕ → List (String × ℕ) → Request → Reply
answer env now log request =
    if is_too_large env request then too_large else elim (limited_by env request) [
      | none ↦ passed
      | some (key, cap) ↦ (count_hit (window env) cap now (times_of key log)).0
    ]

abbrev pub record_request : Dict String → ℕ → List (String × ℕ) → Request → List (String × ℕ)
record_request env now log request =
    if is_too_large env request
    then log
    else elim (limited_by env request) [ none ↦ log | some (key, cap) ↦ log ++ (key, now) ∷ [] ]

-- The answers to a sequence of requests, each at its time.
abbrev pub replies : Dict String → Dict (List ℕ) → List (ℕ × Request) → List Reply
replies env hits [] = []
replies env hits ((now, q) ∷ r) =
    (dispatch env now hits q).0 ∷ replies env (dispatch env now hits q).1 r

abbrev pub answers : Dict String → List (String × ℕ) → List (ℕ × Request) → List Reply
answers env log [] = []
answers env log ((now, q) ∷ r) = answer env now log q ∷ answers env (record_request env now log q) r

-- The clock does not go back.
abbrev pub Ordered {ℓ} : {A : Type ℓ} → ℕ → List (ℕ × A) → Type 0
Ordered t [] = Unit
Ordered t ((now, q) ∷ r) = (t ≤ now) × Ordered now r

-- From a time on, the two agree on what is in the window.
abbrev Agrees : ℕ → ℕ → Dict (List ℕ) → List (String × ℕ) → Type 0
Agrees w t hits log =
    (key : String) (now : ℕ)
    → t ≤ now
    → select (in_window w now) (or_value (get hits key) [])
      ≡ select (in_window w now) (times_of key log)

count_hit-select :
    (w cap now : ℕ) (ts us : List ℕ)
    → select (in_window w now) ts ≡ select (in_window w now) us
    → (count_hit w cap now ts).0 ≡ (count_hit w cap now us).0
count_hit-select w cap now ts us h =
    ap
      (λ (recent : List ℕ).
        (if◌then◌else◌ {A = Reply × List ℕ} (leb cap (length recent))
          (limited (retry_after w now recent), recent ++ now ∷ []) (passed, recent ++ now ∷ [])).0)
      h

pub kept-hits :
    (w cap now : ℕ) (ts : List ℕ)
    → (count_hit w cap now ts).1 ≡ select (in_window w now) ts ++ now ∷ []
kept-hits w cap now ts = elim (Bool-cases (leb cap (length (select (in_window w now) ts)))) [
  | inl e ↦ rw e refl
  | inr e ↦ rw e refl
]

Agrees-hit :
    (w cap t now : ℕ) (hits : Dict (List ℕ)) (log : List (String × ℕ)) (key : String)
    → t ≤ now
    → Agrees w t hits log
    → Agrees w now
        (put hits key (count_hit w cap now (or_value (get hits key) [])).1)
        (log ++ (key, now) ∷ [])
Agrees-hit w cap t now hits log key h agrees k later h' =
    rw
      (
        kept-hits w cap now (or_value (get hits key) []),
        get-put hits key k (select (in_window w now) (or_value (get hits key) []) ++ now ∷ []),
        times_of-append k key now log,
      )
      (elim (Bool-cases (key == k)) [
        | inl e ↦
            let same : key ≡ k = ground (arith, eq_iff key k) in
            rw e (
              select-append (in_window w later) _ (now ∷ [])
              ∙ ap (λ r. r ++ select (in_window w later) (now ∷ []))
                  (select-select w now later _ h'
                    ∙ ap (λ j. select (in_window w later) (or_value (get hits j) [])) same
                    ∙ agrees k later (omega (arith, h, h')))
              ∙ sym (select-append (in_window w later) (times_of k log) (now ∷ [])))
        | inr e ↦ rw e (agrees k later (omega (arith, h, h')))
      ])

dispatch-Agrees :
    (env : Dict String) (t now : ℕ) (hits : Dict (List ℕ)) (log : List (String × ℕ)) (q : Request)
    → t ≤ now
    → Agrees (window env) t hits log
    → ((dispatch env now hits q).0 ≡ answer env now log q)
      × Agrees (window env) now (dispatch env now hits q).1 (record_request env now log q)
unfolding dispatch
dispatch-Agrees env t now hits log q h agrees = elim (Bool-cases (is_too_large env q)) [
  | inl e ↦ rw e (refl, λ k later h'. agrees k later (omega (arith, h, h')))
  | inr e ↦ rw e (elim (Option-cases (limited_by env q)) [
    | inl f ↦ rw f (refl, λ k later h'. agrees k later (omega (arith, h, h')))
    | inr ((key, cap), f) ↦ rw f (
      count_hit-select (window env) cap now _ _ (agrees key now h),
      Agrees-hit (window env) cap t now hits log key h agrees,
    )
  ])
]

replies-answers :
    (env : Dict String) (t : ℕ) (hits : Dict (List ℕ)) (log : List (String × ℕ))
    (qs : List (ℕ × Request))
    → Ordered t qs
    → Agrees (window env) t hits log
    → replies env hits qs ≡ answers env log qs
replies-answers env t hits log [] o a = refl
replies-answers env t hits log ((now, q) ∷ qs) o a =
    let (same, a') = dispatch-Agrees env t now hits log q o.0 a in
    rw
      (
        same,
        replies-answers env now (dispatch env now hits q).1 (record_request env now log q) qs o.1
            a',
      )
      refl

-- As long as the clock does not go back, the middleware, which forgets every time that has left the
-- window, answers each of a sequence of requests just as one that keeps the whole history.
pub pruning_is_exact :
    (env : Dict String) (qs : List (ℕ × Request))
    → Ordered 0 qs
    → replies env [] qs ≡ answers env [] qs
unfolding get
pruning_is_exact env qs o = replies-answers env 0 [] [] qs o (λ key now h. refl)
