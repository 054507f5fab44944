-- ===== src/Tests/Samples.antt =====
-- Samples of a small population.
use mori_soc.Prelude.{map, text_lt, String, ◌≡◌, refl, none, some, List, [], ◌∷◌}
use mori_soc.Prelude.Dict.{Dict, get}
use mori_soc.Sampling.{Params, field_of, goes_before, risk_based_sample, default_high_values}
use mori_soc.Sampling.Sizes.{Sized}
use mori_soc.Sampling.Drawn.{Drawn, risk_based_sample-Drawn}
use mori_soc.Sampling.Order.{Swapped, swap, sample-Swapped}

abbrev item : String → String → Dict String
item id risk = ("id", id) ∷ ("risk", risk) ∷ []

abbrev population : List (Dict String)
population = item "3" "low" ∷ item "1" "High " ∷ item "2" "" ∷ item "4" "low" ∷ []

abbrev params : Params
params = record {
  risk_field = "risk";
  high_values = default_high_values;
  high_cap = 20;
  sample_rate = (1, 2);
  order_field = "id";
}

the_high_one_and_each_second :
    map (λ x. field_of x "id") (risk_based_sample params population (some 4)).sample
    ≡ "1" ∷ "2" ∷ "4" ∷ []
unfolding risk_based_sample get text_lt
the_high_one_and_each_second = refl

risk_based_sample-Drawn_example :
    Drawn params population (risk_based_sample params population (some 9))
    × Sized params population (risk_based_sample params population (some 9))
risk_based_sample-Drawn_example = risk_based_sample-Drawn params population (some 9)

one_swap :
    Swapped "id" "risk" population
      (item "1" "High " ∷ item "3" "low" ∷ item "2" "" ∷ item "4" "low" ∷ [])
unfolding goes_before get text_lt
one_swap = swap (item "3" "low") (item "1" "High ") (item "2" "" ∷ item "4" "low" ∷ []) refl

sample-Swapped_example :
    risk_based_sample params population none
    ≡ risk_based_sample params
        (item "1" "High " ∷ item "3" "low" ∷ item "2" "" ∷ item "4" "low" ∷ [])
        none
sample-Swapped_example =
    sample-Swapped params population
      (item "1" "High " ∷ item "3" "low" ∷ item "2" "" ∷ item "4" "low" ∷ []) none one_swap
