-- ===== src/Prelude/Str.antt =====
-- The methods of Python's `str` that the source calls. Case and letters are those of ASCII; a
-- character beyond ASCII has no case here and counts as a letter.
use Prim.Native.Nat.{ℕ, zero, suc, ◌+◌, ◌-◌, ◌*◌, ◌/◌, ◌%◌}
use mathlib.Core.Option.{Option, none, some}
use mathlib.Core.List.{List, [], ◌∷◌}
use mori_soc.Prelude.Dict.{is_some}
use Prim.Native.Char.{Char, code}
use Prim.Native.String.{String, ◌++◌ as ◌<>◌}
use mathlib.Core.Path.{◌≡◌, refl}
use mathlib.Core.Bool.{Bool, true, false, ◌&&◌, ◌||◌}
use text.Mathlib.Text.{◌==◌}
use mori_soc.Prelude.Tests.{leb, ltb, eqb, if◌then◌else◌}

-- `c.isspace()`
abbrev is_space : ℕ → Bool
is_space c =
    (leb 9 c && leb c 13)
    || (leb 28 c && leb c 32)
    || eqb c 133
    || eqb c 160
    || eqb c 5760
    || (leb 8192 c && leb c 8202)
    || eqb c 8232
    || eqb c 8233
    || eqb c 8239
    || eqb c 8287
    || eqb c 12288

lstrip : String → String
lstrip String.[] = String.[]
lstrip (String.◌∷◌ c s) = let rest = lstrip s in if is_space (code c) then rest else String.◌∷◌ c s

rstrip : String → String
rstrip String.[] = String.[]
rstrip (String.◌∷◌ c s) =
    let rest = rstrip s in if rest == "" && is_space (code c) then String.[] else String.◌∷◌ c rest

-- `s.strip()`
unfoldable pub strip : String → String
unfolding lstrip rstrip
strip s = rstrip (lstrip s)

swap_char : String → String → Char → Char
swap_char (String.◌∷◌ a from) (String.◌∷◌ b to) c =
    let rest = swap_char from to c in if eqb (code a) (code c) then b else rest
swap_char _ _ c = c

-- `s.lower()`
unfoldable pub lower : String → String
unfolding swap_char
lower String.[] = String.[]
lower (String.◌∷◌ c s) =
    String.◌∷◌ (swap_char "ABCDEFGHIJKLMNOPQRSTUVWXYZ" "abcdefghijklmnopqrstuvwxyz" c) (lower s)

-- `c.isalnum() or c in "-._"`
abbrev is_slug_char : ℕ → Bool
is_slug_char c =
    (leb 48 c && leb c 57)
    || (leb 65 c && leb c 90)
    || (leb 97 c && leb c 122)
    || leb 128 c
    || eqb c 45
    || eqb c 46
    || eqb c 95

dashed : ℕ → String → String
dashed zero s = String.[]
dashed (suc n) String.[] = String.[]
dashed (suc n) (String.◌∷◌ c s) =
    if is_slug_char (code c) then String.◌∷◌ c (dashed n s) else String.◌∷◌ "-" (dashed n s)

-- `_slug`, at most 60 characters
unfoldable pub slug : String → String
unfolding dashed strip lower
slug s = dashed 60 (lower (strip s))

digit_from : String → ℕ → String
digit_from String.[] n = String.[]
digit_from (String.◌∷◌ c s) zero = String.◌∷◌ c String.[]
digit_from (String.◌∷◌ c s) (suc n) = digit_from s n

-- On fuel; `n + 1` rounds are enough for `n`.
decimal : ℕ → ℕ → String
decimal zero n = String.[]
decimal (suc fuel) n =
    let rest = decimal fuel (n / 10) in
    let last = digit_from "0123456789" (n % 10) in if ltb n 10 then last else rest <> last

-- `str(n)`
unfoldable pub show_nat : ℕ → String
unfolding decimal digit_from
show_nat n = decimal (n + 1) n

show_nat_runs : (show_nat 0 ≡ "0") × (show_nat 90210 ≡ "90210")
unfolding show_nat
show_nat_runs = (refl, refl)

strip_and_lower : lower (strip "  Ops Team\n") ≡ "ops team"
unfolding strip lower
strip_and_lower = refl

slug_runs : slug " ISMS-P 2025/Q1 " ≡ "isms-p-2025-q1"
unfolding slug
slug_runs = refl

digit_of : ℕ → Option ℕ
digit_of c = if leb 48 c && leb c 57 then some (c - 48) else none

-- The digits of a number, with single underscores between them; `after` says that a digit came last.
digits : String → Bool → ℕ → Option ℕ
digits String.[] after n = if after then some n else none
digits (String.◌∷◌ c s) after n = elim (digit_of (code c)) [
  | none ↦ if after && eqb (code c) 95 then digits s false n else none
  | some d ↦ digits s true (n * 10 + d)
]

signed : String → Option ℕ
signed String.[] = none
signed (String.◌∷◌ c s) =
    if eqb (code c) 45
    then elim (digits s false 0) [ none ↦ none | some n ↦ some 0 ]
    else if eqb (code c) 43
    then digits s false 0
    else digits (String.◌∷◌ c s) false 0

-- `max(0, int(s))`, or `none` for a `ValueError`
unfoldable pub read_int : String → Option ℕ
unfolding signed digits digit_of strip lstrip rstrip
read_int s = signed (strip s)

read_int_runs :
    (read_int " 60\n" ≡ some 60)
    × (read_int "-5" ≡ some 0)
    × (read_int "1_000" ≡ some 1000)
    × (read_int "1__0" ≡ none)
    × (read_int "" ≡ none)
    × (read_int "6O" ≡ none)
unfolding read_int
read_int_runs = (refl, refl, refl, refl, refl, refl)

-- `len(s)`
abbrev pub size : String → ℕ
size String.[] = 0
size (String.◌∷◌ c s) = suc (size s)

-- `s[:n]`
unfoldable pub first_chars : ℕ → String → String
first_chars zero s = String.[]
first_chars (suc n) String.[] = String.[]
first_chars (suc n) (String.◌∷◌ c s) = String.◌∷◌ c (first_chars n s)

-- `s.isdigit()`
unfoldable pub is_digits : String → Bool
unfolding digit_of
is_digits String.[] = false
is_digits (String.◌∷◌ c String.[]) = is_some (digit_of (code c))
is_digits (String.◌∷◌ c (String.◌∷◌ d s)) =
    let rest = is_digits (String.◌∷◌ d s) in is_some (digit_of (code c)) && rest

-- `s.startswith(prefix)`
unfoldable pub starts_with : String → String → Bool
starts_with s String.[] = true
starts_with String.[] (String.◌∷◌ d p) = false
starts_with (String.◌∷◌ c s) (String.◌∷◌ d p) =
    let rest = starts_with s p in eqb (code c) (code d) && rest

-- `s.split(",")[0]`
unfoldable pub before_comma : String → String
before_comma String.[] = String.[]
before_comma (String.◌∷◌ c s) =
    let rest = before_comma s in if eqb (code c) 44 then String.[] else String.◌∷◌ c rest

-- `s.replace(";", ",").split(",")`
unfoldable pub split_list : String → List String
split_list String.[] = "" ∷ []
split_list (String.◌∷◌ c s) =
    let rest = split_list s in
    if eqb (code c) 44 || eqb (code c) 59
    then "" ∷ rest
    else elim rest [ [] ↦ String.◌∷◌ c String.[] ∷ [] | w ∷ ws ↦ String.◌∷◌ c w ∷ ws ]

split_list_runs : split_list "wheel;ops,,adm" ≡ "wheel" ∷ "ops" ∷ "" ∷ "adm" ∷ []
unfolding split_list
split_list_runs = refl

-- `s.split(":", 1)[0]`
unfoldable pub before_colon : String → String
before_colon String.[] = String.[]
before_colon (String.◌∷◌ c s) =
    let rest = before_colon s in if eqb (code c) 58 then String.[] else String.◌∷◌ c rest
