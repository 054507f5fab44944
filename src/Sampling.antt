-- ===== src/Sampling.antt =====
-- Samples for an audit by risk: src/mori_soc/services/sampling.py. A rate is a fraction of whole numbers,
-- where the source has a float, and an item is a dict of texts.
use mori_soc.Prelude.{
  ltb, eqb, if◌then◌else◌, length, take, select, contains, text_lt, strip, lower, show_nat, ℕ, zero,
  suc, ◌+◌, ◌-◌, ◌*◌, ◌/◌, min, max, String, ◌<>◌, Bool, not, ◌&&◌, ◌||◌, Option, none, some, List,
  [], ◌∷◌, ◌++◌, map, ◌==◌,
}
use mori_soc.Prelude.Dict.{Dict, get, or_value}
use mori_soc.ScopeCoverage.{round_div}
pub mod Sizes
pub mod Drawn
pub mod Order

abbrev pub default_high_values : List String
default_high_values = "high" ∷ "critical" ∷ "상" ∷ "관리자" ∷ "admin" ∷ "퇴사자" ∷ "leaver" ∷ []

-- `_key`
unfoldable pub field_of : Dict String → String → String
unfolding get
field_of item field = or_value (get item field) ""

unfoldable pub is_high : String → List String → Dict String → Bool
unfolding field_of strip lower
is_high risk_field high_values item =
    contains (map (λ v. lower (strip v)) high_values) (lower (strip (field_of item risk_field)))

-- The pairs of keys in the order of Python's tuples
unfoldable pub goes_before : String → String → Dict String → Dict String → Bool
unfolding field_of text_lt
goes_before order_field risk_field a b =
    text_lt (field_of a order_field) (field_of b order_field)
    || (field_of a order_field == field_of b order_field
        && text_lt (field_of a risk_field) (field_of b risk_field))

-- `sorted`, which keeps the order of items that do not differ in their keys
unfoldable pub insert_item :
    (Dict String → Dict String → Bool) → Dict String → List (Dict String) → List (Dict String)
insert_item before x [] = x ∷ []
insert_item before x (y ∷ ys) =
    let rest = insert_item before x ys in if before y x then y ∷ rest else x ∷ y ∷ ys

unfoldable pub sort_items :
    (Dict String → Dict String → Bool) → List (Dict String) → List (Dict String)
unfolding insert_item
sort_items before [] = []
sort_items before (x ∷ xs) = insert_item before x (sort_items before xs)

-- `xs[::k]`, when `skip` items are left out first
unfoldable pub every : ℕ → ℕ → List (Dict String) → List (Dict String)
every k skip [] = []
every k zero (x ∷ xs) = x ∷ every k (k - 1) xs
every k (suc skip) (x ∷ xs) = every k skip xs

-- `max(1, round(1 / sample_rate)) if sample_rate > 0 else 0`
unfoldable pub interval : ℕ × ℕ → ℕ
unfolding round_div
interval (n, d) = if eqb n 0 then 0 else max 1 (round_div d n)

pub record Params : Type 0 where
  pub risk_field : String
  pub high_values : List String
  pub high_cap : ℕ
  pub sample_rate : ℕ × ℕ
  pub order_field : String

pub record Completeness : Type 0 where
  pub expected_population : ℕ
  pub missing_from_population : ℕ
  pub population_complete : Bool
  pub population_warning : Option String

pub record Sample : Type 0 where
  pub population : ℕ
  pub high_count : ℕ
  pub systematic_count : ℕ
  pub sample_count : ℕ
  pub coverage_pct : ℕ
  pub method : String
  pub sample : List (Dict String)
  pub params : Params
  pub interval_k : ℕ
  pub completeness : Option Completeness

unfoldable pub method_text : ℕ → ℕ → String
unfolding show_nat
method_text high_cap k =
    if eqb k 0
    then "위험 기반 — 고위험 전수(최대 " <> show_nat high_cap <> ")"
    else "위험 기반 — 고위험 전수(최대 " <> show_nat high_cap <> ") + 나머지 계통추출 1-in-" <> show_nat k

-- What the source knows of the population against what was collected
unfoldable pub completeness_of : ℕ → Option ℕ → Option Completeness
unfolding show_nat
completeness_of collected none = none
completeness_of collected (some expected) =
    let missing = expected - collected in
    some (record {
      expected_population = expected;
      missing_from_population = missing;
      population_complete = eqb missing 0;
      population_warning =
          if eqb missing 0
          then none
          else some (
              "모집단 불완전: 소스 기준 "
              <> show_nat expected
              <> "건 중 "
              <> show_nat collected
              <> "건만 수집됨("
              <> show_nat missing
              <> "건 누락). 표본 결과 신뢰 전에 소스 수집 상태를 먼저 확인하세요.");
    })

unfoldable pub risk_based_sample : Params → List (Dict String) → Option ℕ → Sample
unfolding is_high goes_before sort_items every interval method_text completeness_of round_div
risk_based_sample p population expected_population =
    let high = is_high p.risk_field p.high_values in
    let ordered = sort_items (goes_before p.order_field p.risk_field) population in
    let high_items = take p.high_cap (select high ordered) in
    let rest = select (λ x. not (high x)) ordered in
    let k = interval p.sample_rate in
    let systematic = if eqb k 0 then [] else every k 0 rest in
    let sample = high_items ++ systematic in
    record {
      population = length population;
      high_count = length high_items;
      systematic_count = length systematic;
      sample_count = length sample;
      coverage_pct =
          if eqb (length population) 0
          then 0
          else round_div (length sample * 100) (length population);
      method = method_text p.high_cap k;
      sample = sample;
      params = p;
      interval_k = k;
      completeness = completeness_of (length population) expected_population;
    }

-- `math.ceil(n / k)`
abbrev pub ceil_div : ℕ → ℕ → ℕ
ceil_div n k = (n + (k - 1)) / k

unfoldable pub sample_size_for : ℕ → ℕ → ℕ × ℕ → ℕ
unfolding interval
sample_size_for population_n high_cap sample_rate =
    let high = min high_cap population_n in
    let rest = population_n - high in
    let k = interval sample_rate in
    if eqb population_n 0 then 0 else high + (if eqb k 0 then 0 else ceil_div rest k)
