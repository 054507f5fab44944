-- ===== src/Prelude/Dict.antt =====
-- Python's `dict` with text keys, in insertion order: an association list.
use mori_soc.Prelude.Tests.{if◌then◌else◌, Bool-cases}
use Prim.Native.String.{String}
use mathlib.Core.Path.{◌≡◌, refl, ap}
use mathlib.Core.Logic.{inl, inr}
use mathlib.Core.Bool.{Bool, true, false}
use mathlib.Core.Option.{Option, none, some}
use mathlib.Core.List.{List, [], ◌∷◌, ◌++◌}
use native.Mathlib.Omega.{arith}
use text.Mathlib.Text.{◌==◌}
use text.Mathlib.TextEquality.{eq_iff}

abbrev pub Dict {ℓ} : Type ℓ → Type ℓ
Dict V = List (String × V)

module _ {ℓ} {V : Type ℓ} where
  -- `d.get(k)`
  unfoldable pub get : Dict V → String → Option V
  get [] k = none
  get ((j, v) ∷ d) k = if j == k then some v else get d k

  -- `k in d`
  abbrev pub is_some : Option V → Bool
  is_some none = false
  is_some (some _) = true

  -- `d.get(k, v)`
  abbrev pub or_value : Option V → V → V
  or_value none d = d
  or_value (some v) d = v

  -- `d[k] = v`: an old key keeps its place.
  unfoldable pub put : Dict V → String → V → Dict V
  put [] k v = (k, v) ∷ []
  put ((j, w) ∷ d) k v = if j == k then (j, v) ∷ d else (j, w) ∷ put d k v

  -- `d.pop(k, None)`
  unfoldable pub remove : Dict V → String → Dict V
  remove [] k = []
  remove ((j, w) ∷ d) k = let rest = remove d k in if j == k then rest else (j, w) ∷ rest

  abbrev pub keys : Dict V → List String
  keys [] = []
  keys ((j, w) ∷ d) = j ∷ keys d

  abbrev pub values : Dict V → List V
  values [] = []
  values ((j, w) ∷ d) = w ∷ values d

  pub get-put :
      (d : Dict V) (k j : String) (v : V) → get (put d k v) j ≡ (if k == j then some v else get d j)
  unfolding get put
  get-put [] k j v = refl
  get-put ((i, w) ∷ d) k j v = ground (arith, eq_iff k j, eq_iff i k, eq_iff i j, get-put d k j v)

  pub get-remove :
      (d : Dict V) (k j : String) → get (remove d k) j ≡ (if k == j then none else get d j)
  unfolding get remove
  get-remove [] k j = ground arith
  get-remove ((i, w) ∷ d) k j = ground (arith, eq_iff k j, eq_iff i k, eq_iff i j, get-remove d k j)

module _ {ℓ} {A : Type ℓ} where
  -- `{key(x): x for x in xs}`: a later element replaces an earlier one of its key.
  unfoldable pub index_onto : (A → String) → Dict A → List A → Dict A
  index_onto key d [] = d
  index_onto key d (x ∷ xs) = index_onto key (put d (key x) x) xs

  abbrev pub index_by : (A → String) → List A → Dict A
  index_by key xs = index_onto key [] xs

module _ {ℓ} {V : Type ℓ} where
  -- A real dict has each key once.
  abbrev pub NodupKeys : Dict V → Type ℓ
  NodupKeys [] = Unit
  NodupKeys ((k, _) ∷ d) = (get d k ≡ none) × NodupKeys d

  pub put-NodupKeys : (d : Dict V) (k : String) (v : V) → NodupKeys d → NodupKeys (put d k v)
  unfolding put get
  put-NodupKeys [] k v h = (refl, tt)
  put-NodupKeys ((j, w) ∷ d) k v h =
      ground (arith, put-NodupKeys d k v h.1, get-put d k j v, eq_iff k j, eq_iff j k)

  -- `d.update(changes)`
  unfoldable pub update : Dict V → Dict V → Dict V
  update d [] = d
  update d ((k, v) ∷ r) = update (put d k v) r

  abbrev pub first_some : Option V → Option V → Option V
  first_some none b = b
  first_some (some a) b = some a

  pub get-update :
      (r d : Dict V) (k : String)
      → NodupKeys r
      → get (update d r) k ≡ first_some (get r k) (get d k)
  unfolding update get
  get-update [] d k h = refl
  get-update ((j, v) ∷ r) d k h =
      ground (arith, get-update r (put d j v) k h.1, get-put d j k v, eq_iff j k)

module _ {ℓ} {A : Type ℓ} where
  pub index_onto-NodupKeys :
      (key : A → String) (d : Dict A) (xs : List A) → NodupKeys d → NodupKeys (index_onto key d xs)
  unfolding index_onto
  index_onto-NodupKeys key d [] h = h
  index_onto-NodupKeys key d (x ∷ xs) h =
      index_onto-NodupKeys key (put d (key x) x) xs (put-NodupKeys d (key x) x h)

  -- Every entry of a dict is at its own key.
  abbrev pub KeyedBy : (A → String) → Dict A → Type 0
  KeyedBy key [] = Unit
  KeyedBy key ((k, x) ∷ d) = (k ≡ key x) × KeyedBy key d

  pub put-KeyedBy :
      (key : A → String) (d : Dict A) (k : String) (x : A)
      → k ≡ key x
      → KeyedBy key d
      → KeyedBy key (put d k x)
  unfolding put
  put-KeyedBy key [] k x e h = (e, tt)
  put-KeyedBy key ((j, w) ∷ d) k x e h = ground (arith, put-KeyedBy key d k x e h.1, eq_iff j k)

  pub get-KeyedBy :
      (key : A → String) (d : Dict A) (k : String) (x : A)
      → KeyedBy key d
      → get d k ≡ some x
      → key x ≡ k
  unfolding get
  get-KeyedBy key [] k x h e = ground arith
  get-KeyedBy key ((j, w) ∷ d) k x h e = ground (arith, get-KeyedBy key d k x h.1, eq_iff j k)

  pub index_onto-KeyedBy :
      (key : A → String) (d : Dict A) (xs : List A)
      → KeyedBy key d
      → KeyedBy key (index_onto key d xs)
  unfolding index_onto
  index_onto-KeyedBy key d [] h = h
  index_onto-KeyedBy key d (x ∷ xs) h =
      index_onto-KeyedBy key (put d (key x) x) xs (put-KeyedBy key d (key x) x refl h)

-- `d[k].append(x)` on a `defaultdict(list)`
abbrev pub list_of {ℓ} : {A : Type ℓ} → Dict (List A) → String → List A
list_of d k = or_value (get d k) []

unfoldable pub append_to {ℓ} : {A : Type ℓ} → Dict (List A) → String → A → Dict (List A)
append_to d k x = put d k (list_of d k ++ x ∷ [])

pub get-append_to {ℓ} :
    {A : Type ℓ} (d : Dict (List A)) (k j : String) (x : A)
    → list_of (append_to d k x) j ≡ (if k == j then list_of d j ++ x ∷ [] else list_of d j)
unfolding append_to
get-append_to d k j x = elim (Bool-cases (k == j)) [
  | inl e ↦
      let same : k ≡ j = ground (arith, eq_iff k j) in
      rw (get-put d k j (list_of d k ++ x ∷ []), e) (ap (λ i. list_of d i ++ x ∷ []) same)
  | inr e ↦ rw (get-put d k j (list_of d k ++ x ∷ []), e) refl
]

pub ruleset dict_laws = (get-put, get-remove)
