-- ===== src/ScopeCoverage.antt =====
-- The tags of certified scopes and their coverage: src/mori_soc/services/scope_coverage.py.
use mori_soc.Prelude.{
  ltb, eqb, if◌then◌else◌, length, take, count_if, contains, strip, lower, first_chars, ℕ, zero,
  suc, ◌+◌, ◌-◌, ◌*◌, ◌/◌, ◌%◌, String, Bool, not, ◌||◌, List, [], ◌∷◌, ◌++◌, map, ◌==◌, refl, ◌≡◌,
}
use mori_soc.Prelude.Dict.{Dict, list_of, append_to, keys}
use mori_soc.Governance.Catalog.{add_text, sort_texts}
use Prim.Native.Char.{Char, code}
pub mod Tags
pub mod Percent

-- A comma, a line break or a middle dot, which become commas
abbrev pub is_separator : Char → Bool
is_separator c = eqb (code c) 44 || eqb (code c) 10 || eqb (code c) 183

abbrev pub onto_first : Char → List String → List String
onto_first c [] = String.◌∷◌ c String.[] ∷ []
onto_first c (p ∷ ps) = String.◌∷◌ c p ∷ ps

unfoldable pub split_tags : String → List String
split_tags String.[] = "" ∷ []
split_tags (String.◌∷◌ c s) =
    let rest = split_tags s in if is_separator c then "" ∷ rest else onto_first c rest

-- What a record holds as its tags; `other` is no text and no list.
pub data RawTags : Type 0 where
  text : String → RawTags
  listed : List String → RawTags
  other : RawTags

unfoldable pub tag_parts : RawTags → List String
unfolding split_tags strip
tag_parts (text s) = map strip (split_tags s)
tag_parts (listed ps) = map strip ps
tag_parts other = []

abbrev pub max_size : ℕ
max_size = 60

abbrev pub max_tags : ℕ
max_tags = 20

-- The loop over the parts, onto `out`
unfoldable pub tags_onto : List String → List String → List String
unfolding first_chars
tags_onto out [] = out
tags_onto out (p ∷ ps) =
    tags_onto (if p == "" || contains out p then out else out ++ first_chars max_size p ∷ []) ps

unfoldable pub normalize_tags : RawTags → List String
unfolding tag_parts tags_onto
normalize_tags raw = take max_tags (tags_onto [] (tag_parts raw))

unfoldable pub host_key : String → String
unfolding lower strip
host_key v = lower (strip v)

pub record Owner : Type 0 where
  pub hostname : String
  pub scope_tags : RawTags

-- `mon`
unfoldable pub monitored_set : List String → List String → List String
unfolding host_key
monitored_set set [] = set
monitored_set set (h ∷ hs) =
    monitored_set (if host_key h == "" then set else add_text set (host_key h)) hs

unfoldable pub add_host : Dict (List String) → String → List String → Dict (List String)
unfolding append_to
add_host d host [] = d
add_host d host (t ∷ ts) = add_host (append_to d t host) host ts

unfoldable pub tag_assets : Dict (List String) → List Owner → Dict (List String)
unfolding add_host normalize_tags strip
tag_assets d [] = d
tag_assets d (o ∷ os) = tag_assets (add_host d (strip o.hostname) (normalize_tags o.scope_tags)) os

-- `round(n / d)`: to the nearest number, and a half to the even one
unfoldable pub round_div : ℕ → ℕ → ℕ
round_div n d =
    let q = n / d in
    let twice = 2 * (n % d) in
    if ltb twice d then q else if ltb d twice then q + 1 else if eqb (q % 2) 0 then q else q + 1

pub record Coverage : Type 0 where
  pub tag : String
  pub assets : ℕ
  pub monitored : ℕ
  pub unmonitored : ℕ
  pub coverage_pct : ℕ

-- `_cov`, with the tag
unfoldable pub coverage : List String → String → List String → Coverage
unfolding host_key round_div
coverage mon tag hosts =
    let assets = length hosts in
    let monitored = count_if (λ h. contains mon (host_key h)) hosts in
    record {
      tag = tag;
      assets = assets;
      monitored = monitored;
      unmonitored = assets - monitored;
      coverage_pct = if eqb assets 0 then 0 else round_div (monitored * 100) assets;
    }

pub record ScopeCoverage : Type 0 where
  pub tags : List Coverage
  pub in_scope : Coverage
  pub total_assets : ℕ
  pub monitored_hosts : ℕ

unfoldable pub compute_scope_coverage : List Owner → List String → String → ScopeCoverage
unfolding monitored_set tag_assets coverage sort_texts
compute_scope_coverage owners monitored_hosts in_scope_tag =
    let mon = monitored_set [] monitored_hosts in
    let assets = tag_assets [] owners in
    record {
      tags = map (λ t. coverage mon t (list_of assets t)) (sort_texts (keys assets));
      in_scope = coverage mon in_scope_tag (list_of assets in_scope_tag);
      total_assets = length owners;
      monitored_hosts = length mon;
    }
