-- ===== src/Sampling/Drawn.antt =====
-- Which items a sample has.
use mori_soc.Prelude.{
  eqb, if◌then◌else◌, Bool-cases, take, select, count_if, get_elem?, All, text_lt, text_lt_irrefl,
  text_lt_asymm, text_lt_of_not_lt, ℕ, zero, suc, ◌+◌, ◌-◌, ◌*◌, ◌<◌, String, ◌≡◌, refl, ap, ◌∙◌,
  sym, Bool, true, false, not, inl, inr, Option, List, [], ◌∷◌, ◌++◌, ◌==◌, eq_iff, arith,
}
use mathlib.Core.Path.{subst}
use mathlib.Core.Bool.{false≢true}
use mori_soc.Prelude.Dict.{Dict}
use mori_soc.Sampling.{
  Params, Sample, field_of, is_high, goes_before, insert_item, sort_items, every, interval,
  risk_based_sample,
}
use mori_soc.Sampling.Sizes.{Sized, risk_based_sample-Sized, count_if-sort_items}

module _ (order_field : String) where
  -- The second item does not go before the first one by the order field.
  abbrev pub IsNoEarlier : Dict String → Dict String → Type 0
  IsNoEarlier x y = text_lt (field_of y order_field) (field_of x order_field) ≡ false

  abbrev pub InOrder : List (Dict String) → Type 0
  InOrder [] = Unit
  InOrder (x ∷ xs) = All (IsNoEarlier x) xs × InOrder xs

  IsNoEarlier-trans : (x y z : Dict String) → IsNoEarlier x y → IsNoEarlier y z → IsNoEarlier x z
  IsNoEarlier-trans x y z p q =
      let a = field_of x order_field in
      let b = field_of y order_field in
      let c = field_of z order_field in
      elim (Bool-cases (text_lt c a)) [
        | inl e ↦ absurd (false≢true (sym p ∙ text_lt_of_not_lt b c a q e))
        | inr e ↦ e
      ]

  later-IsNoEarlier :
      (x r : Dict String) (ys : List (Dict String))
      → IsNoEarlier r x
      → All (IsNoEarlier x) ys
      → All (IsNoEarlier r) ys
  later-IsNoEarlier x r [] p h = tt
  later-IsNoEarlier x r (y ∷ ys) p h =
      (IsNoEarlier-trans r x y p h.0, later-IsNoEarlier x r ys p h.1)

  insert_item-All :
      (P : Dict String → Type 0) (before : Dict String → Dict String → Bool) (r : Dict String)
      (xs : List (Dict String))
      → P r
      → All P xs
      → All P (insert_item before r xs)
  unfolding insert_item
  insert_item-All P before r [] p h = (p, tt)
  insert_item-All P before r (x ∷ xs) p h = elim (Bool-cases (before x r)) [
    | inl e ↦ rw (e) ((h.0, insert_item-All P before r xs p h.1))
    | inr e ↦ rw (e) ((p, h))
  ]

  module _ (risk_field : String) where
    before-IsNoEarlier :
        (x y : Dict String) → goes_before order_field risk_field x y ≡ true → IsNoEarlier x y
    unfolding goes_before
    before-IsNoEarlier x y h =
        let a = field_of x order_field in
        let b = field_of y order_field in
        elim (Bool-cases (text_lt a b)) [
          | inl e ↦ text_lt_asymm a b e
          | inr e ↦
              let same : (a == b) ≡ true = ground (arith, h, e) in
              subst (λ s. text_lt s a ≡ false) ((eq_iff a b).0 same) (text_lt_irrefl a)
        ]

    after-IsNoEarlier :
        (x y : Dict String) → goes_before order_field risk_field x y ≡ false → IsNoEarlier y x
    unfolding goes_before
    after-IsNoEarlier x y h = ground (arith, h)

    insert_item-InOrder :
        (r : Dict String) (xs : List (Dict String))
        → InOrder xs
        → InOrder (insert_item (goes_before order_field risk_field) r xs)
    unfolding insert_item
    insert_item-InOrder r [] h = (tt, tt)
    insert_item-InOrder r (x ∷ xs) h =
        let before = goes_before order_field risk_field in
        elim (Bool-cases (before x r)) [
          | inl e ↦ rw (e) (
              (
                insert_item-All (IsNoEarlier x) before r xs (before-IsNoEarlier x r e) h.0,
                insert_item-InOrder r xs h.1,
              ))
          | inr e ↦
              let first = after-IsNoEarlier x r e in
              rw (e) (((first, later-IsNoEarlier x r xs first h.0), h))
        ]

    sort_items-InOrder :
        (xs : List (Dict String)) → InOrder (sort_items (goes_before order_field risk_field) xs)
    unfolding sort_items
    sort_items-InOrder [] = tt
    sort_items-InOrder (x ∷ xs) =
        insert_item-InOrder x (sort_items (goes_before order_field risk_field) xs)
          (sort_items-InOrder xs)

-- Behind the items that are left out, every k-th one is taken.
get_elem?-every :
    (k : ℕ)
    → 0 < k
    → (skip : ℕ) (xs : List (Dict String)) (i : ℕ)
    → get_elem? (every k skip xs) i ≡ get_elem? xs (skip + i * k)
unfolding every
get_elem?-every k pos skip [] i = refl
get_elem?-every k pos zero (x ∷ xs) zero =
    let first : 0 ≡ 0 + 0 * k = omega arith in ap (get_elem? (x ∷ xs)) first
get_elem?-every k pos zero (x ∷ xs) (suc i) =
    let next : suc (k - 1 + i * k) ≡ 0 + suc i * k = omega (arith, pos) in
    get_elem?-every k pos (k - 1) xs i ∙ ap (get_elem? (x ∷ xs)) next
get_elem?-every k pos (suc skip) (x ∷ xs) i =
    let next : suc (skip + i * k) ≡ suc skip + i * k = omega arith in
    get_elem?-every k pos skip xs i ∙ ap (get_elem? (x ∷ xs)) next

-- A sample of the population, which `ordered` holds in the order of the order field: first the items of high
-- risk up to the cap, then of the others the items at the places 0, k, 2k and so on.
pub record Drawn (p : Params) (population : List (Dict String)) (s : Sample) : Type 0 where
  pub ordered : List (Dict String)
  pub same_items : (q : Dict String → Bool) → count_if q ordered ≡ count_if q population
  pub in_order : InOrder p.order_field ordered
  pub highs : List (Dict String)
  pub others : List (Dict String)
  pub drawn : s.sample ≡ highs ++ others
  pub all_high : highs ≡ take p.high_cap (select (is_high p.risk_field p.high_values) ordered)
  pub each_kth :
      0 < interval p.sample_rate
      → (i : ℕ)
      → get_elem? others i
        ≡ get_elem?
            (select (λ x. not (is_high p.risk_field p.high_values x)) ordered)
            (i * interval p.sample_rate)
  pub none_else : interval p.sample_rate ≡ 0 → others ≡ []

sample-Drawn :
    (p : Params) (population : List (Dict String)) (expected : Option ℕ)
    → Drawn p population (risk_based_sample p population expected)
unfolding risk_based_sample
sample-Drawn p population expected =
    let before = goes_before p.order_field p.risk_field in
    let q = is_high p.risk_field p.high_values in
    let k = interval p.sample_rate in
    let ordered = sort_items before population in
    let rest = select (λ x. not (q x)) ordered in
    record {
      ordered = ordered;
      same_items = λ t. count_if-sort_items t before population;
      in_order = sort_items-InOrder p.order_field p.risk_field population;
      highs = take p.high_cap (select q ordered);
      others = if eqb k 0 then [] else every k 0 rest;
      drawn = refl;
      all_high = refl;
      each_kth = λ pos i.
          let some_others : eqb k 0 ≡ false = ground (arith, pos) in
          rw (some_others) (get_elem?-every k pos 0 rest i ∙ ap (get_elem? rest) (omega arith));
      none_else = λ e. let all : eqb k 0 ≡ true = ground (arith, e) in rw (all) refl;
    }

-- A sample consists of the items of high risk up to the cap, in the order of the order field, and then, of
-- the other items in this order, of the first one and each k-th one after it: their numbers are those of
-- the population, rounded up, and in all no more than the size that is announced beforehand.
pub risk_based_sample-Drawn :
    (p : Params) (population : List (Dict String)) (expected : Option ℕ)
    → Drawn p population (risk_based_sample p population expected)
      × Sized p population (risk_based_sample p population expected)
risk_based_sample-Drawn p population expected =
    (sample-Drawn p population expected, risk_based_sample-Sized p population expected)
