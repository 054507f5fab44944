-- ===== src/Normalization/Hosts.antt =====
-- The alias maps of the mapper, and the host that a set of aliases stands for:
-- src/mori_soc/services/normalization.py, with `short_id` of src/mori_soc/services/hashing.py. The
-- digest is a parameter.
use mori_soc.Prelude.{
  leb, eqb, if◌then◌else◌, starts_with, ℕ, String, ◌<>◌, Bool, true, false, ◌&&◌, ◌||◌, Option,
  none, some, List, [], ◌∷◌, ◌++◌, ◌==◌,
}
use mori_soc.Prelude.Dict.{Dict, get, is_some, or_value, put}
use mori_soc.Normalization.Values.{or_string, or_else, first?}
use Prim.Native.Char.{code}

abbrev pub asset_bucket_by_source : Dict String
asset_bucket_by_source =
    ("fleet", "pc")
    ∷ ("zabbix", "server")
    ∷ ("trivy", "server")
    ∷ ("wazuh", "neutral")
    ∷ ("host_log", "neutral")
    ∷ ("code_review", "neutral")
    ∷ []

abbrev pub bridged_asset_buckets : List String
bridged_asset_buckets = "pc" ∷ "server" ∷ []

pub record Mapper : Type 0 where
  pub alias_map : Dict String
  pub bucket_alias_map : Dict (Dict String)

-- `d.setdefault(bucket, {})`
abbrev pub with_bucket : Dict (Dict String) → String → Dict (Dict String)
with_bucket d bucket = if is_some (get d bucket) then d else put d bucket []

unfoldable pub new_mapper : Dict String → Dict (Dict String) → Mapper
unfolding get put
new_mapper aliases buckets = record {
  alias_map = aliases;
  bucket_alias_map = with_bucket (with_bucket (with_bucket buckets "pc") "server") "neutral";
}

abbrev pub bucket_for_source : Option String → Option String
bucket_for_source none = none
bucket_for_source (some source) = get asset_bucket_by_source source

abbrev pub bucket_map : Mapper → String → Dict String
bucket_map m bucket = or_value (get m.bucket_alias_map bucket) []

abbrev pub put_alias : Mapper → String → String → String → Mapper
put_alias m bucket alias host_id = record m {
  bucket_alias_map = put m.bucket_alias_map bucket (put (bucket_map m bucket) alias host_id);
}

-- `bucket or self._bucket_for_source(source)`
abbrev pub resolved_bucket : Option String → Option String → Option String
resolved_bucket none source = bucket_for_source source
resolved_bucket (some b) source = if b == "" then bucket_for_source source else some b

unfoldable pub register_alias : Mapper → String → String → Option String → Option String → Mapper
unfolding get put
register_alias m alias host_id source bucket =
    let known = record m { alias_map = put m.alias_map alias host_id } in
    elim (resolved_bucket bucket source) [ none ↦ known | some b ↦ put_alias known b alias host_id ]

unfoldable pub find_host_id : Dict String → List String → Option String
unfolding get
find_host_id d [] = none
find_host_id d (alias ∷ r) = let rest = find_host_id d r in or_else (get d alias) rest

-- The hosts of some aliases in a bucket, in order.
unfoldable pub matched_in : Dict String → List String → List String
unfolding get
matched_in d [] = []
matched_in d (alias ∷ r) =
    let rest = matched_in d r in elim (get d alias) [ none ↦ rest | some h ↦ h ∷ rest ]

abbrev pub all_are : String → List String → Bool
all_are h [] = true
all_are h (x ∷ xs) = x == h && all_are h xs

-- The only element of a set, if it has one element.
abbrev pub only_host : List String → Option String
only_host [] = none
only_host (h ∷ hs) = if all_are h hs then some h else none

unfoldable pub find_neutral_bridge_host_id : Mapper → List String → Option String
unfolding matched_in get
find_neutral_bridge_host_id m aliases =
    only_host (matched_in (bucket_map m "pc") aliases ++ matched_in (bucket_map m "server") aliases)

unfoldable pub put_all : Dict String → List String → String → Dict String
unfolding put
put_all d [] host_id = d
put_all d (alias ∷ r) host_id = put_all (put d alias host_id) r host_id

unfoldable pub register_bucket_aliases : Mapper → String → List String → String → Mapper
unfolding put_all get put
register_bucket_aliases m bucket aliases host_id = record m {
  bucket_alias_map = put m.bucket_alias_map bucket (put_all (bucket_map m bucket) aliases host_id);
}

abbrev pub is_safe_char : ℕ → Bool
is_safe_char c =
    (leb 48 c && leb c 57)
    || (leb 65 c && leb c 90)
    || (leb 97 c && leb c 122)
    || eqb c 46
    || eqb c 95
    || eqb c 45

-- `re.sub(r"[^A-Za-z0-9._-]+", "-", s)`; `inside` says that a run is being skipped.
unfoldable pub replace_unsafe : Bool → String → String
replace_unsafe inside String.[] = String.[]
replace_unsafe inside (String.◌∷◌ c s) = elim (is_safe_char (code c)) [
  | true ↦ String.◌∷◌ c (replace_unsafe false s)
  | false ↦ (if inside then "" else "-") <> replace_unsafe true s
]

abbrev pub is_edge_char : ℕ → Bool
is_edge_char c = eqb c 45 || eqb c 46 || eqb c 95

lstrip_edge : String → String
lstrip_edge String.[] = String.[]
lstrip_edge (String.◌∷◌ c s) =
    let rest = lstrip_edge s in if is_edge_char (code c) then rest else String.◌∷◌ c s

rstrip_edge : String → String
rstrip_edge String.[] = String.[]
rstrip_edge (String.◌∷◌ c s) =
    let rest = rstrip_edge s in
    if rest == "" && is_edge_char (code c) then String.[] else String.◌∷◌ c rest

-- `s.strip("-._")`
unfoldable pub strip_edges : String → String
unfolding lstrip_edge rstrip_edge
strip_edges s = rstrip_edge (lstrip_edge s)

unfoldable pub join_bars : List String → String
join_bars [] = ""
join_bars (s ∷ []) = s
join_bars (s ∷ t ∷ r) = s <> "|" <> join_bars (t ∷ r)

abbrev pub bucket_of : String → String
bucket_of source = or_string (bucket_for_source (some source)) "neutral"

-- `sha1(text).hexdigest()[:16]`
module _ (digest : String → String) where
  unfoldable pub short_id : List String → String → String
  unfolding join_bars
  short_id parts prefix =
      let id = digest (join_bars parts) in if prefix == "" then id else prefix <> "-" <> id

  -- `_scoped_host_id`, once the identity is safe
  abbrev pub scoped : String → String → String
  scoped bucket identity =
      if starts_with identity (bucket <> "-") then identity else bucket <> "-" <> identity

  unfoldable pub scoped_host_id : String → String → String
  unfolding replace_unsafe strip_edges short_id starts_with
  scoped_host_id bucket identity =
      let safe = strip_edges (replace_unsafe false identity) in
      scoped bucket (if safe == "" then short_id (identity ∷ []) "" else safe)

  abbrev pub bridge : Mapper → String → List String → Option String
  bridge m bucket aliases =
      if bucket == "neutral" then find_neutral_bridge_host_id m aliases else none

  unfoldable pub choose_host_id : Mapper → String → List String → String → String
  unfolding find_host_id find_neutral_bridge_host_id scoped_host_id
  choose_host_id m bucket aliases fallback =
      or_string (find_host_id (bucket_map m bucket) aliases) (
        or_string (bridge m bucket aliases) (
          or_string (find_host_id m.alias_map aliases)
            (scoped_host_id bucket (or_string (first? aliases) fallback))))

  -- Whatever way the host is found, the aliases are registered under it.
  unfoldable pub resolve_host_id : Mapper → String → List String → String → Mapper × String
  unfolding choose_host_id register_bucket_aliases get
  resolve_host_id m source aliases fallback =
      let bucket = bucket_of source in
      let host_id = choose_host_id m bucket aliases fallback in
      (register_bucket_aliases m bucket aliases host_id, host_id)
