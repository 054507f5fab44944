-- ===== src/Sampling/Sizes.antt =====
-- How many items a sample has.
use mori_soc.Prelude.{
  ltb→lt, ltb, eqb, Bool-cases, length, take, select, count_if, length-append, length-select,
  length-take, count_if-le, ℕ, zero, suc, ◌+◌, ◌-◌, ◌/◌, ◌≤◌, ◌<◌, min, String, ◌≡◌, ◌≢◌, refl, ap,
  ◌∙◌, sym, Bool, true, false, not, inl, inr, Option, List, [], ◌∷◌, arith, ◌⊎◌,
}
use mori_soc.Prelude.Dict.{Dict}
use mori_soc.Sampling.{
  Params, Sample, is_high, goes_before, insert_item, sort_items, every, interval, risk_based_sample,
  ceil_div, sample_size_for,
}
use native.Mathlib.Nat.{div-eq_of_lt, div-eq-sub-div, le-div_iff_mul-le, div-mul-le_self}

eqb-cases : (m n : ℕ) → ((m ≡ n) × (eqb m n ≡ true)) ⊎ ((m ≢ n) × (eqb m n ≡ false))
eqb-cases m n = ground arith

count_if-insert_item :
    (q : Dict String → Bool) (before : Dict String → Dict String → Bool) (x : Dict String)
    (ys : List (Dict String))
    → count_if q (insert_item before x ys) ≡ count_if q (x ∷ ys)
unfolding insert_item
count_if-insert_item q before x [] = refl
count_if-insert_item q before x (y ∷ ys) = ground (arith, count_if-insert_item q before x ys)

-- Sorting keeps the number of items of each kind.
pub count_if-sort_items :
    (q : Dict String → Bool) (before : Dict String → Dict String → Bool) (xs : List (Dict String))
    → count_if q (sort_items before xs) ≡ count_if q xs
unfolding sort_items
count_if-sort_items q before [] = refl
count_if-sort_items q before (x ∷ xs) =
    ground (
      arith,
      count_if-insert_item q before x (sort_items before xs),
      count_if-sort_items q before xs,
    )

count_if-not :
    (q : Dict String → Bool) (xs : List (Dict String))
    → count_if (λ x. not (q x)) xs + count_if q xs ≡ length xs
count_if-not q [] = refl
count_if-not q (x ∷ xs) = ground (arith, count_if-not q xs)

module _ (k : ℕ) (pos : 0 < k) where
  -- Of the items after the first `skip`, every k-th one is taken.
  length-every :
      (skip : ℕ) (xs : List (Dict String))
      → skip ≤ k - 1
      → length (every k skip xs) ≡ (length xs + (k - 1) - skip) / k
  unfolding every
  length-every skip [] h = sym (div-eq_of_lt (omega (arith, pos)))
  length-every zero (x ∷ xs) h =
      let n = suc (length xs) + (k - 1) - 0 in
      let full : n / k ≡ (n - k) / k + 1 = div-eq-sub-div pos (omega (arith, pos)) in
      let less : (length xs + (k - 1) - (k - 1)) / k ≡ (n - k) / k =
        ap (λ m. m / k) (omega (arith, pos)) in
      omega (arith, length-every (k - 1) xs (omega arith), full, less)
  length-every (suc skip) (x ∷ xs) h =
      length-every skip xs (omega (arith, h)) ∙ ap (λ m. m / k) (omega (arith, h))

  div-le : (a b : ℕ) → a ≤ b → a / k ≤ b / k
  div-le a b h = (le-div_iff_mul-le pos).1 (omega (arith, h, div-mul-le_self a k))

  ceil_div-suc : (n : ℕ) → ceil_div (suc n) k ≤ suc (ceil_div n k)
  ceil_div-suc n =
      let m = suc n + (k - 1) in
      let full : m / k ≡ (m - k) / k + 1 = div-eq-sub-div pos (omega (arith, pos)) in
      omega (arith, full, div-le (m - k) (n + (k - 1)) (omega (arith, pos)))

  ceil_div-add : (n d : ℕ) → ceil_div (n + d) k ≤ ceil_div n k + d
  ceil_div-add n zero =
      let same : ceil_div (n + 0) k ≡ ceil_div n k = ap (λ m. ceil_div m k) (omega arith) in
      omega (arith, same)
  ceil_div-add n (suc d) =
      let same : ceil_div (n + suc d) k ≡ ceil_div (suc (n + d)) k =
        ap (λ m. ceil_div m k) (omega arith) in
      omega (arith, same, ceil_div-suc (n + d), ceil_div-add n d)

  -- Fewer items of high risk than the cap leave more for the others, but no more in all.
  split-le : (n h c : ℕ) → h ≤ n → min c h + ceil_div (n - h) k ≤ min c n + ceil_div (n - min c n) k
  split-le n h c le = elim (Bool-cases (ltb c h)) [
    | inl over ↦
        let capped : c < h = ltb→lt c h over in
        omega (
          arith,
          capped,
          le,
          div-le (n - h + (k - 1)) (n - min c n + (k - 1)) (omega (arith, capped, le)),
        )
    | inr within ↦
        let few : h ≤ c = ground (arith, within) in
        let same : ceil_div (n - h) k ≡ ceil_div (n - min c n + (min c n - h)) k =
          ap (λ m. ceil_div m k) (omega (arith, few, le)) in
        omega (arith, few, le, same, ceil_div-add (n - min c n) (min c n - h))
  ]

-- What the counts of a sample say of the population.
pub record Sized (p : Params) (population : List (Dict String)) (s : Sample) : Type 0 where
  pub high :
      s.high_count ≡ min p.high_cap (count_if (is_high p.risk_field p.high_values) population)
  pub others :
      0 < interval p.sample_rate
      → s.systematic_count
        ≡ ceil_div
            (length population - count_if (is_high p.risk_field p.high_values) population)
            (interval p.sample_rate)
  pub in_all : s.sample_count ≡ s.high_count + s.systematic_count
  pub announced : s.sample_count ≤ sample_size_for (length population) p.high_cap p.sample_rate

module _ (before : Dict String → Dict String → Bool) (q : Dict String → Bool)
    (xs : List (Dict String)) where
  length-high : (c : ℕ) → length (take c (select q (sort_items before xs))) ≡ min c (count_if q xs)
  length-high c =
      rw
        (
          length-take c (select q (sort_items before xs)),
          length-select q (sort_items before xs),
          count_if-sort_items q before xs,
        )
        refl

  length-rest : length (select (λ x. not (q x)) (sort_items before xs)) ≡ length xs - count_if q xs
  length-rest =
      rw
        (
          length-select (λ x. not (q x)) (sort_items before xs),
          count_if-sort_items (λ x. not (q x)) before xs,
        )
        (omega (arith, count_if-not q xs))

  -- What a systematic choice takes of the others.
  length-systematic :
      (k : ℕ)
      → 0 < k
      → length (every k 0 (select (λ x. not (q x)) (sort_items before xs)))
        ≡ ceil_div (length xs - count_if q xs) k
  length-systematic k pos =
      length-every k pos 0 (select (λ x. not (q x)) (sort_items before xs)) (omega arith)
      ∙ ap (λ m. m / k) (omega (arith, length-rest))

-- The counts of a sample, and the size that is announced beforehand, which they do not exceed.
pub risk_based_sample-Sized :
    (p : Params) (population : List (Dict String)) (expected : Option ℕ)
    → Sized p population (risk_based_sample p population expected)
unfolding risk_based_sample sample_size_for
risk_based_sample-Sized p population expected =
    let before = goes_before p.order_field p.risk_field in
    let q = is_high p.risk_field p.high_values in
    let k = interval p.sample_rate in
    let high = length-high before q population p.high_cap in
    let le = count_if-le q population in
    let high_items = take p.high_cap (select q (sort_items before population)) in
    elim (eqb-cases k 0) [
      | inl none_else ↦ record {
        high = high;
        others = λ pos. absurd (omega (arith, pos, none_else.0));
        in_all = rw (none_else.1) (length-append high_items []);
        announced = rw (none_else.1) (elim (eqb-cases (length population) 0) [
          | inl e ↦ rw (e.1) (omega (arith, length-append high_items [], high, le, e.0))
          | inr e ↦ rw (e.1) (omega (arith, length-append high_items [], high, le))
        ]);
      }
      | inr each ↦
          let pos : 0 < k = omega (arith, each.0) in
          let systematic = every k 0 (select (λ x. not (q x)) (sort_items before population)) in
          let others = length-systematic before q population k pos in
          let in_all = length-append high_items systematic in
          record {
            high = high;
            others = λ _. rw (each.1) others;
            in_all = rw (each.1) in_all;
            announced = rw (each.1) (elim (eqb-cases (length population) 0) [
              | inl e ↦
                  let empty : ceil_div (length population - count_if q population) k ≡ 0 =
                    div-eq_of_lt (omega (arith, pos, e.0)) in
                  rw (e.1) (omega (arith, in_all, high, le, others, empty, e.0))
              | inr e ↦ rw (e.1) (
                  omega (
                    arith,
                    in_all,
                    high,
                    others,
                    split-le k pos (length population) (count_if q population) p.high_cap le,
                  ))
            ]);
          }
    ]
