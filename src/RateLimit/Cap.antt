-- ===== src/RateLimit/Cap.antt =====
-- How many requests of one key a window lets through.
use mori_soc.Prelude.{
  leb, Bool-cases, length, select, count_if, length-select, count_if-append, ℕ, ◌+◌, ◌≤◌, ◌≡◌, refl,
  sym, ap, ◌∙◌, inl, inr, Bool, true, false, ◌&&◌, List, [], ◌∷◌, ◌++◌, arith,
}
use mathlib.Core.Path.{subst}
use mathlib.Core.List.{append-nil, append_assoc}
use mori_soc.RateLimit.{retry_after, Reply, limited, passed, in_window, count_hit}
use mori_soc.RateLimit.Window.{select-select, kept-hits}

abbrev pub let_through : Reply → ℕ → List ℕ → List ℕ
let_through passed now rest = now ∷ rest
let_through _ now rest = rest

-- The times of the requests of one key that pass, given the times that are kept.
abbrev pub served : ℕ → ℕ → List ℕ → List ℕ → List ℕ
served w cap kept [] = []
served w cap kept (now ∷ ts) =
    let_through (count_hit w cap now kept).0 now (served w cap (count_hit w cap now kept).1 ts)

abbrev pub Rising : ℕ → List ℕ → Type 0
Rising t [] = Unit
Rising t (now ∷ ts) = (t ≤ now) × Rising now ts

-- A time is in the window that ends at `now`.
abbrev pub within : ℕ → ℕ → ℕ → Bool
within w now t = leb t now && in_window w now t

-- What holds of the requests `before` that have passed until `t`.
pub record Bounded (w cap t : ℕ) (kept before : List ℕ) : Type 0 where
  pub capped : (now : ℕ) → count_if (within w now) before ≤ cap
  pub past : (now : ℕ) → t ≤ now → count_if (within w now) before ≤ count_if (in_window w now) kept

pub count_if-select :
    (w now later : ℕ) (ts : List ℕ)
    → now ≤ later
    → count_if (in_window w later) (select (in_window w now) ts) ≡ count_if (in_window w later) ts
count_if-select w now later ts h =
    sym (length-select (in_window w later) _)
    ∙ ap length (select-select w now later ts h)
    ∙ length-select (in_window w later) ts

count_if-antitone :
    (w now later : ℕ) (ts : List ℕ)
    → now ≤ later
    → count_if (in_window w later) ts ≤ count_if (in_window w now) ts
count_if-antitone w now later [] h = omega arith
count_if-antitone w now later (t ∷ ts) h = ground (arith, count_if-antitone w now later ts h)

-- What is kept counts the present request and what was in the window.
count_if-kept :
    (w now later : ℕ) (kept : List ℕ)
    → now ≤ later
    → count_if (in_window w later) (select (in_window w now) kept ++ now ∷ [])
      ≡ count_if (in_window w later) kept + count_if (in_window w later) (now ∷ [])
count_if-kept w now later kept h =
    count_if-append (in_window w later) _ (now ∷ [])
    ∙ ap (λ n. n + count_if (in_window w later) (now ∷ [])) (count_if-select w now later kept h)

Bounded-refused :
    (w cap t now : ℕ) (kept before : List ℕ)
    → t ≤ now
    → Bounded w cap t kept before
    → Bounded w cap now (select (in_window w now) kept ++ now ∷ []) before
Bounded-refused w cap t now kept before h b = record {
  capped = b.capped;
  past = λ later h'.
      rw (count_if-kept w now later kept h') (omega (arith, b.past later (omega (arith, h, h'))));
}

pub Bounded-passed :
    (w cap t now : ℕ) (kept before : List ℕ)
    → t ≤ now
    → leb cap (length (select (in_window w now) kept)) ≡ false
    → Bounded w cap t kept before
    → Bounded w cap now (select (in_window w now) kept ++ now ∷ []) (before ++ now ∷ [])
Bounded-passed w cap t now kept before h e b = record {
  capped = λ later. rw (count_if-append (within w later) before (now ∷ [])) (
      ground (
        arith,
        b.capped later,
        b.past later,
        count_if-antitone w now later kept,
        length-select (in_window w now) kept,
        h,
        e,
      ));
  past = λ later h'.
      rw (count_if-kept w now later kept h', count_if-append (within w later) before (now ∷ []))
        (ground (arith, b.past later (omega (arith, h, h'))));
}

refused-hit :
    (w cap now : ℕ) (kept : List ℕ)
    → leb cap (length (select (in_window w now) kept)) ≡ true
    → (count_hit w cap now kept).0 ≡ limited (retry_after w now (select (in_window w now) kept))
refused-hit w cap now kept e = rw e refl

passed-hit :
    (w cap now : ℕ) (kept : List ℕ)
    → leb cap (length (select (in_window w now) kept)) ≡ false
    → (count_hit w cap now kept).0 ≡ passed
passed-hit w cap now kept e = rw e refl

served-Bounded :
    (w cap t : ℕ) (kept before ts : List ℕ)
    → Rising t ts
    → Bounded w cap t kept before
    → (now : ℕ) → count_if (within w now) (before ++ served w cap kept ts) ≤ cap
served-Bounded w cap t kept before [] o b now = rw (append-nil before) (b.capped now)
served-Bounded w cap t kept before (x ∷ ts) o b now =
    let next = (count_hit w cap x kept).1 in
    let rest = served w cap next ts in
    elim (Bool-cases (leb cap (length (select (in_window w x) kept)))) [
      | inl e ↦
          subst (λ reply. count_if (within w now) (before ++ let_through reply x rest) ≤ cap)
            (sym (refused-hit w cap x kept e))
            (served-Bounded w cap x next before ts o.1
              (rw (kept-hits w cap x kept) (Bounded-refused w cap t x kept before o.0 b)) now)
      | inr e ↦
          subst (λ reply. count_if (within w now) (before ++ let_through reply x rest) ≤ cap)
            (sym (passed-hit w cap x kept e))
            (subst (λ xs. count_if (within w now) xs ≤ cap) (append_assoc before (x ∷ []) rest)
              (served-Bounded w cap x next (before ++ x ∷ []) ts o.1
                (rw (kept-hits w cap x kept) (Bounded-passed w cap t x kept before o.0 e b)) now))
    ]

-- If the clock does not go back, then whatever moment one takes, at most `cap` of the requests of one
-- key that are let through lie in the window that ends there.
pub served_at_most :
    (w cap : ℕ) (ts : List ℕ)
    → Rising 0 ts
    → (now : ℕ) → count_if (within w now) (served w cap [] ts) ≤ cap
served_at_most w cap ts o now =
    served-Bounded w cap 0 [] [] ts o
      (record { capped = λ n. omega arith; past = λ n h. omega arith }) now
