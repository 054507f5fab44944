-- ===== src/ScopeCoverage/Percent.antt =====
-- What the percentage of a coverage tells of the assets.
use mori_soc.Prelude.{
  eqb, length, count_if, count_if-le, map, true, false, ◌≢◌, contains, All, map, true, false, ◌≢◌,
  ℕ, ◌+◌, ◌-◌, ◌*◌, ◌/◌, ◌%◌, ◌≤◌, ◌<◌, ◌≡◌, String, List, [], ◌∷◌, arith, ◌⊎◌, inl, inr,
}
use mori_soc.Prelude.Dict.{list_of, keys}
use mori_soc.Governance.Catalog.{sort_texts}
use mori_soc.ScopeCoverage.{
  Owner, Coverage, coverage, round_div, host_key, monitored_set, tag_assets, compute_scope_coverage,
}
use mathlib.Core.Path.{subst}
use native.Mathlib.Nat.{div-add-mod, div-le_of_le-mul}

-- A row counts each asset once, its percentage is at most 100, and, for fewer than 200 assets, 100 percent
-- means that none is unmonitored and 0 percent that none is monitored.
pub record Honest (c : Coverage) : Type 0 where
  pub adds_up : c.monitored + c.unmonitored ≡ c.assets
  pub at_most : c.coverage_pct ≤ 100
  pub full : c.assets < 200 → c.coverage_pct ≡ 100 → c.unmonitored ≡ 0
  pub none_seen : 0 < c.assets → c.assets < 200 → c.coverage_pct ≡ 0 → c.monitored ≡ 0

eqb-cases : (m n : ℕ) → ((m ≡ n) × (eqb m n ≡ true)) ⊎ ((m ≢ n) × (eqb m n ≡ false))
eqb-cases m n = ground arith

-- The rounded quotient is the quotient or, for a large remainder, one more.
round_div-cases :
    (n d : ℕ)
    → ((round_div n d ≡ n / d) × (2 * (n % d) ≤ d))
      ⊎ ((round_div n d ≡ n / d + 1) × (d ≤ 2 * (n % d)))
unfolding round_div
round_div-cases n d = ground arith

-- The percentage of `m` among `a`, with its quotient `q` and its remainder `r`.
module _ (m a q r p : ℕ) (le : m ≤ a) (some_asset : 0 < a) (division : a * q + r ≡ m * 100)
    (up_to : q ≤ 100) (rounded : ((p ≡ q) × (2 * r ≤ a)) ⊎ ((p ≡ q + 1) × (a ≤ 2 * r))) where
  at_quotient : (n : ℕ) → q ≡ n → a * n + r ≡ m * 100
  at_quotient n e = subst (λ x. a * x + r ≡ m * 100) e division

  pct-le : p ≤ 100
  pct-le = elim rounded [
    | inl x ↦ omega (arith, x.0, up_to)
    | inr x ↦ elim (eqb-cases q 100) [
      | inl e ↦ omega (arith, x.0, x.1, le, some_asset, at_quotient 100 e.0)
      | inr e ↦ omega (arith, x.0, up_to, e.0)
    ]
  ]

  full_pct : a < 200 → p ≡ 100 → a - m ≡ 0
  full_pct few e = elim rounded [
    | inl x ↦ omega (arith, le, at_quotient 100 (omega (arith, x.0, e)))
    | inr x ↦ omega (arith, x.1, few, le, at_quotient 99 (omega (arith, x.0, e)))
  ]

  no_pct : a < 200 → p ≡ 0 → m ≡ 0
  no_pct few e = elim rounded [
    | inl x ↦ omega (arith, x.1, few, at_quotient 0 (omega (arith, x.0, e)))
    | inr x ↦ omega (arith, x.0, e)
  ]

coverage-Honest :
    (mon : List String) (tag : String) (hosts : List String) → Honest (coverage mon tag hosts)
unfolding coverage
coverage-Honest mon tag hosts =
    let a = length hosts in
    let m = count_if (λ h. contains mon (host_key h)) hosts in
    let le : m ≤ a = count_if-le (λ h. contains mon (host_key h)) hosts in
    elim (eqb-cases a 0) [
      | inl z ↦ record {
        adds_up = omega (arith, le);
        at_most = rw (z.1) (omega arith);
        full = λ few e. omega (arith, le, z.0);
        none_seen = λ pos few e. omega (arith, le, z.0);
      }
      | inr nz ↦
          let q = (m * 100) / a in
          let pos : 0 < a = omega (arith, nz.0) in
          let up_to : q ≤ 100 = div-le_of_le-mul a (omega (arith, le)) in
          let rounded = round_div-cases (m * 100) a in
          let division = div-add-mod (m * 100) a in
          let p = round_div (m * 100) a in
          record {
            adds_up = omega (arith, le);
            at_most = rw (nz.1) (pct-le m a q ((m * 100) % a) p le pos division up_to rounded);
            full = λ few e.
                full_pct m a q ((m * 100) % a) p le pos division up_to rounded few (rw (nz.1) at e);
            none_seen = λ pos' few e.
                no_pct m a q ((m * 100) % a) p le pos division up_to rounded few (rw (nz.1) at e);
          }
    ]

coverages-Honest :
    (mon : List String) (hosts_of : String → List String) (tags : List String)
    → All Honest (map (λ t. coverage mon t (hosts_of t)) tags)
coverages-Honest mon hosts_of [] = tt
coverages-Honest mon hosts_of (t ∷ ts) =
    (coverage-Honest mon t (hosts_of t), coverages-Honest mon hosts_of ts)

-- Every row of the coverage, that of the certified scope included, counts each asset as monitored or as
-- unmonitored and has a percentage of at most 100; among fewer than 200 assets 100 percent means that none
-- is unmonitored, and 0 percent that none is monitored.
pub scope_coverage-Honest :
    (owners : List Owner) (monitored_hosts : List String) (in_scope_tag : String)
    → let c = compute_scope_coverage owners monitored_hosts in_scope_tag in
      Honest c.in_scope × All Honest c.tags
unfolding compute_scope_coverage
scope_coverage-Honest owners monitored_hosts in_scope_tag =
    let mon = monitored_set [] monitored_hosts in
    let assets = tag_assets [] owners in
    (
      coverage-Honest mon in_scope_tag (list_of assets in_scope_tag),
      coverages-Honest mon (list_of assets) (sort_texts (keys assets)),
    )
