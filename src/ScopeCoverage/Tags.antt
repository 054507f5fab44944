-- ===== src/ScopeCoverage/Tags.antt =====
-- The tags that a record keeps.
use mori_soc.Prelude.{
  Bool-cases, length, take, count_if, count_if-append, length-take, All, All-append, contains, size,
  first_chars, ℕ, zero, suc, ◌≤◌, String, ◌≡◌, refl, ap, Bool, false, ◌||◌, inl, inr, List, [], ◌∷◌,
  ◌++◌, ◌==◌, eq_iff, arith,
}
use mori_soc.ScopeCoverage.{RawTags, text, tag_parts, tags_onto, normalize_tags, max_size, max_tags}
use mathlib.Core.Path.{subst}
use package.text.Mathlib.TextLemmas.{cons-ne-nil}

-- A tag that is kept has 1 to 60 characters.
abbrev pub IsTag : String → Type 0
IsTag t = ((t == "") ≡ false) × (size t ≤ max_size)

-- No text occurs twice.
abbrev pub IsDistinct : List String → Type 0
IsDistinct ts = (t : String) → count_if (λ x. x == t) ts ≤ 1

-- A part that is cut to nothing new.
abbrev pub IsShort : String → Type 0
IsShort p = size p ≤ max_size

size-first_chars : (n : ℕ) (s : String) → size (first_chars n s) ≤ n
unfolding first_chars
size-first_chars zero s = omega arith
size-first_chars (suc n) String.[] = omega arith
size-first_chars (suc n) (String.◌∷◌ c s) = omega (arith, size-first_chars n s)

first_chars_short : (n : ℕ) (s : String) → size s ≤ n → first_chars n s ≡ s
unfolding first_chars
first_chars_short zero String.[] h = refl
first_chars_short zero (String.◌∷◌ c s) h = absurd (omega (arith, h))
first_chars_short (suc n) String.[] h = refl
first_chars_short (suc n) (String.◌∷◌ c s) h =
    ap (String.◌∷◌ c) (first_chars_short n s (omega (arith, h)))

first_chars_some : (n : ℕ) (s : String) → (s == "") ≡ false → (first_chars (suc n) s == "") ≡ false
unfolding first_chars
first_chars_some n String.[] h = h
first_chars_some n (String.◌∷◌ c s) h =
    let full : (String.◌∷◌ c (first_chars n s) == "") ≡ false =
      ground (arith, eq_iff (String.◌∷◌ c (first_chars n s)) "", cons-ne-nil c (first_chars n s)) in
    full

module _ {ℓ κ} {A : Type ℓ} (P : A → Type κ) where
  All-take : (n : ℕ) (xs : List A) → All P xs → All P (take n xs)
  All-take zero xs h = tt
  All-take (suc n) [] h = tt
  All-take (suc n) (x ∷ xs) h = (h.0, All-take n xs h.1)

count_if-take {ℓ} :
    {A : Type ℓ} (p : A → Bool) (n : ℕ) (xs : List A) → count_if p (take n xs) ≤ count_if p xs
count_if-take p zero xs = omega arith
count_if-take p (suc n) [] = omega arith
count_if-take p (suc n) (x ∷ xs) = ground (arith, count_if-take p n xs)

count_if-contains :
    (ts : List String) (t : String) → contains ts t ≡ false → count_if (λ x. x == t) ts ≡ 0
count_if-contains [] t h = refl
count_if-contains (x ∷ ts) t h = ground (arith, count_if-contains ts t)

IsDistinct-append :
    (ts : List String) (p : String)
    → IsDistinct ts
    → contains ts p ≡ false
    → IsDistinct (ts ++ p ∷ [])
IsDistinct-append ts p h new t =
    let sum = count_if-append (λ x. x == t) ts (p ∷ []) in
    elim (Bool-cases (p == t)) [
      | inl e ↦
          let none_yet =
            subst (λ y. count_if (λ x. x == y) ts ≡ 0) ((eq_iff p t).0 e)
              (count_if-contains ts p new) in
          rw (sum, none_yet, e) (omega arith)
      | inr e ↦ rw (sum, e) (omega (arith, h t))
    ]

tags_onto-IsTag :
    (ps : List String) (out : List String) → All IsTag out → All IsTag (tags_onto out ps)
unfolding tags_onto
tags_onto-IsTag [] out h = h
tags_onto-IsTag (p ∷ ps) out h = elim (Bool-cases (p == "" || contains out p)) [
  | inl e ↦ rw (e) (tags_onto-IsTag ps out h)
  | inr e ↦
      let filled : (p == "") ≡ false = ground (arith, e) in
      rw (e) (
        tags_onto-IsTag ps (out ++ first_chars max_size p ∷ []) (
          All-append IsTag out (first_chars max_size p ∷ []) h
            ((first_chars_some 59 p filled, size-first_chars max_size p), tt)))
]

tags_onto-IsDistinct :
    (ps : List String) (out : List String)
    → All IsShort ps
    → IsDistinct out
    → IsDistinct (tags_onto out ps)
unfolding tags_onto
tags_onto-IsDistinct [] out short h = h
tags_onto-IsDistinct (p ∷ ps) out short h = elim (Bool-cases (p == "" || contains out p)) [
  | inl e ↦ rw (e) (tags_onto-IsDistinct ps out short.1 h)
  | inr e ↦
      let new : contains out p ≡ false = ground (arith, e) in
      rw (e, first_chars_short max_size p short.0)
        (tags_onto-IsDistinct ps (out ++ p ∷ []) short.1 (IsDistinct-append out p h new))
]

-- A record keeps at most 20 tags, each of 1 to 60 characters; they differ from each other when no part of
-- the input has more than 60 characters.
pub normalize_tags-IsTag :
    (raw : RawTags)
    → (length (normalize_tags raw) ≤ 20)
      × All IsTag (normalize_tags raw)
      × (All IsShort (tag_parts raw) → IsDistinct (normalize_tags raw))
unfolding normalize_tags
normalize_tags-IsTag raw =
    let kept = tags_onto [] (tag_parts raw) in
    (
      omega (arith, length-take max_tags kept),
      All-take IsTag max_tags kept (tags_onto-IsTag (tag_parts raw) [] tt),
      λ short t. omega (
        arith,
        count_if-take (λ x. x == t) max_tags kept,
        tags_onto-IsDistinct (tag_parts raw) [] short (λ u. omega arith) t,
      ),
    )
