-- ===== src/Sampling/Order.antt =====
-- A sample does not depend on the order in which the population was collected.
use mori_soc.Prelude.{
  Bool-cases, length, text_lt, text_lt_trans, text_lt_irrefl, ℕ, suc, String, ◌≡◌, refl, ap, sym,
  ◌∙◌, Bool, true, false, ◌||◌, ◌&&◌, inl, inr, Option, List, [], ◌∷◌, ◌==◌, eq_iff, arith,
}
use mori_soc.Prelude.Dict.{Dict}
use mori_soc.Sampling.{Params, field_of, goes_before, insert_item, sort_items, risk_based_sample}

pair_lt : String → String → String → String → Bool
unfolding text_lt
pair_lt s t u v = text_lt s u || (s == u && text_lt t v)

pair_lt_trans :
    (s t u v w x : String)
    → pair_lt s t u v ≡ true
    → pair_lt u v w x ≡ true
    → pair_lt s t w x ≡ true
unfolding pair_lt
pair_lt_trans s t u v w x p q =
    grind (arith, eq_iff s u, eq_iff u w, eq_iff s w, text_lt_trans s u w, text_lt_trans t v x)

pair_lt_irrefl : (s t : String) → pair_lt s t s t ≡ false
unfolding pair_lt
pair_lt_irrefl s t = rw (text_lt_irrefl s, text_lt_irrefl t) (ground arith)

module _ (order_field risk_field : String) where
  before_trans :
      (a b c : Dict String)
      → goes_before order_field risk_field a b ≡ true
      → goes_before order_field risk_field b c ≡ true
      → goes_before order_field risk_field a c ≡ true
  unfolding goes_before pair_lt
  before_trans a b c p q =
      pair_lt_trans (field_of a order_field) (field_of a risk_field) (field_of b order_field)
        (field_of b risk_field) (field_of c order_field) (field_of c risk_field) p q

  before_irrefl : (a : Dict String) → goes_before order_field risk_field a a ≡ false
  unfolding goes_before pair_lt
  before_irrefl a = pair_lt_irrefl (field_of a order_field) (field_of a risk_field)

  before_asymm :
      (a b : Dict String)
      → goes_before order_field risk_field a b ≡ true
      → goes_before order_field risk_field b a ≡ false
  before_asymm a b p = ground (arith, before_irrefl a, before_trans a b a p)

  -- Two items of which the first goes before the second may be inserted in either order.
  insert_item_comm :
      (a b : Dict String) (ys : List (Dict String))
      → goes_before order_field risk_field a b ≡ true
      → insert_item
          (goes_before order_field risk_field)
          a
          (insert_item (goes_before order_field risk_field) b ys)
        ≡ insert_item
            (goes_before order_field risk_field)
            b
            (insert_item (goes_before order_field risk_field) a ys)
  unfolding insert_item
  insert_item_comm a b [] p = rw (before_asymm a b p, p) refl
  insert_item_comm a b (y ∷ ys) p = grind (
    arith,
    p,
    before_asymm a b p,
    before_asymm y b,
    before_trans y a b,
    insert_item_comm a b ys p,
  )

  -- The two populations differ by swaps of neighbours with different keys.
  pub data Swapped : List (Dict String) → List (Dict String) → Type 0 where
    as_is : (xs : List (Dict String)) → Swapped xs xs
    swap :
        (a b : Dict String) (xs : List (Dict String))
        → (goes_before order_field risk_field a b || goes_before order_field risk_field b a) ≡ true
        → Swapped (a ∷ b ∷ xs) (b ∷ a ∷ xs)
    behind :
        (a : Dict String) (xs ys : List (Dict String)) → Swapped xs ys → Swapped (a ∷ xs) (a ∷ ys)
    and_then : (xs ys zs : List (Dict String)) → Swapped xs ys → Swapped ys zs → Swapped xs zs

  sort_items-Swapped :
      (xs ys : List (Dict String))
      → Swapped xs ys
      → sort_items (goes_before order_field risk_field) xs
        ≡ sort_items (goes_before order_field risk_field) ys
  unfolding sort_items
  sort_items-Swapped _ _ (as_is xs) = refl
  sort_items-Swapped _ _ (swap a b xs p) =
      let sorted = sort_items (goes_before order_field risk_field) xs in
      elim (Bool-cases (goes_before order_field risk_field a b)) [
        | inl q ↦ insert_item_comm a b sorted q
        | inr q ↦ sym (insert_item_comm b a sorted (ground (arith, p, q)))
      ]
  sort_items-Swapped _ _ (behind a xs ys h) =
      ap (insert_item (goes_before order_field risk_field) a) (sort_items-Swapped xs ys h)
  sort_items-Swapped _ _ (and_then xs ys zs h k) =
      sort_items-Swapped xs ys h ∙ sort_items-Swapped ys zs k

  length-Swapped : (xs ys : List (Dict String)) → Swapped xs ys → length xs ≡ length ys
  length-Swapped _ _ (as_is xs) = refl
  length-Swapped _ _ (swap a b xs p) = refl
  length-Swapped _ _ (behind a xs ys h) = ap suc (length-Swapped xs ys h)
  length-Swapped _ _ (and_then xs ys zs h k) = length-Swapped xs ys h ∙ length-Swapped ys zs k

-- Two populations that differ by swaps of neighbours with different keys, however many, have the same sample
-- with the same counts.
pub sample-Swapped :
    (p : Params) (xs ys : List (Dict String)) (expected : Option ℕ)
    → Swapped p.order_field p.risk_field xs ys
    → risk_based_sample p xs expected ≡ risk_based_sample p ys expected
unfolding risk_based_sample
sample-Swapped p xs ys expected h =
    rw
      (
        sort_items-Swapped p.order_field p.risk_field xs ys h,
        length-Swapped p.order_field p.risk_field xs ys h,
      )
      refl
