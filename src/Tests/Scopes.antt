-- ===== src/Tests/Scopes.antt =====
-- The tags and the coverage of scopes at concrete inputs.
use mori_soc.Prelude.{length, All, ◌≤◌, ◌≡◌, refl, List, [], ◌∷◌}
use mori_soc.Prelude.Dict.{get, put}
use mori_soc.ScopeCoverage.{
  RawTags, text, listed, other, tag_parts, normalize_tags, Owner, compute_scope_coverage,
}
use mori_soc.ScopeCoverage.Tags.{IsTag, IsDistinct, IsShort, normalize_tags-IsTag}
use mori_soc.ScopeCoverage.Percent.{Honest, scope_coverage-Honest}

abbrev two_tags : RawTags
two_tags = text " prod, pci\nprod"

two_tags_are_kept : normalize_tags two_tags ≡ "prod" ∷ "pci" ∷ []
unfolding normalize_tags
two_tags_are_kept = refl

-- Two long parts that differ from the 61st character on leave one tag twice.
cut_twice :
    normalize_tags (
      listed (
        "abcdefghijabcdefghijabcdefghijabcdefghijabcdefghijabcdefghij1"
        ∷ "abcdefghijabcdefghijabcdefghijabcdefghijabcdefghijabcdefghij2" ∷ []))
    ≡ "abcdefghijabcdefghijabcdefghijabcdefghijabcdefghijabcdefghij"
      ∷ "abcdefghijabcdefghijabcdefghijabcdefghijabcdefghijabcdefghij" ∷ []
unfolding normalize_tags
cut_twice = refl

normalize_tags-IsTag_example :
    (length (normalize_tags two_tags) ≤ 20)
    × All IsTag (normalize_tags two_tags)
    × (All IsShort (tag_parts two_tags) → IsDistinct (normalize_tags two_tags))
normalize_tags-IsTag_example = normalize_tags-IsTag two_tags

abbrev owners : List Owner
owners =
    record { hostname = "Web-1 "; scope_tags = two_tags }
    ∷ record { hostname = "db-1"; scope_tags = listed ("pci" ∷ []) }
    ∷ record { hostname = "pc-7"; scope_tags = other }
    ∷ []

half_is_covered :
    (compute_scope_coverage owners ("web-1" ∷ "" ∷ []) "pci").in_scope
    ≡ record { tag = "pci"; assets = 2; monitored = 1; unmonitored = 1; coverage_pct = 50 }
unfolding compute_scope_coverage get put
half_is_covered = refl

scope_coverage-Honest_example :
    Honest (compute_scope_coverage owners ("web-1" ∷ "" ∷ []) "pci").in_scope
    × All Honest (compute_scope_coverage owners ("web-1" ∷ "" ∷ []) "pci").tags
scope_coverage-Honest_example = scope_coverage-Honest owners ("web-1" ∷ "" ∷ []) "pci"
