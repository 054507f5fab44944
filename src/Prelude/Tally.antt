-- ===== src/Prelude/Tally.antt =====
-- Counting by key: `d[k] = d.get(k, 0) + 1` for each key of a list.
use Prim.Native.Nat.{ℕ, suc, ◌+◌}
use Prim.Native.String.{String}
use mathlib.Core.Path.{◌≡◌}
use mathlib.Core.List.{List, [], ◌∷◌}
use native.Mathlib.Omega.{arith}
use text.Mathlib.Text.{◌==◌}
use text.Mathlib.TextEquality.{eq_iff}
use mori_soc.Prelude.Tests.{if◌then◌else◌}
use mori_soc.Prelude.Lists.{length, count_if}
use mori_soc.Prelude.Dict.{Dict, get, put, or_value, values, get-put}

unfoldable pub bump : Dict ℕ → String → Dict ℕ
bump d k = put d k (or_value (get d k) 0 + 1)

unfoldable pub tally_onto : Dict ℕ → List String → Dict ℕ
unfolding bump
tally_onto d [] = d
tally_onto d (k ∷ ks) = tally_onto (bump d k) ks

abbrev pub count_of : Dict ℕ → String → ℕ
count_of d k = or_value (get d k) 0

abbrev pub total : List ℕ → ℕ
total [] = 0
total (n ∷ ns) = n + total ns

pub count_of-bump :
    (d : Dict ℕ) (k j : String)
    → count_of (bump d k) j ≡ (if k == j then suc (count_of d j) else count_of d j)
unfolding bump
count_of-bump d k j = ground (arith, get-put d k j (count_of d k + 1), eq_iff k j)

pub count_of-tally_onto :
    (d : Dict ℕ) (ks : List String) (j : String)
    → count_of (tally_onto d ks) j ≡ count_of d j + count_if (λ k. k == j) ks
unfolding tally_onto
count_of-tally_onto d [] j = omega arith
count_of-tally_onto d (k ∷ ks) j =
    ground (arith, count_of-tally_onto (bump d k) ks j, count_of-bump d k j)

total-put :
    (d : Dict ℕ) (k : String) (n : ℕ)
    → total (values (put d k n)) + count_of d k ≡ total (values d) + n
unfolding put get
total-put [] k n = omega arith
total-put ((j, m) ∷ d) k n = ground (arith, total-put d k n)

total-bump : (d : Dict ℕ) (k : String) → total (values (bump d k)) ≡ suc (total (values d))
unfolding bump
total-bump d k = omega (arith, total-put d k (count_of d k + 1))

-- The counts sum to the number of keys that were counted.
pub total-tally_onto :
    (d : Dict ℕ) (ks : List String)
    → total (values (tally_onto d ks)) ≡ total (values d) + length ks
unfolding tally_onto
total-tally_onto d [] = omega arith
total-tally_onto d (k ∷ ks) = omega (arith, total-tally_onto (bump d k) ks, total-bump d k)
