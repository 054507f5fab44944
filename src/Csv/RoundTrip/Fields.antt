-- ===== src/Csv/RoundTrip/Fields.antt =====
-- A field that the writer has written, the reader reads back.
use mori_soc.Prelude.{
  size, Bool-cases, ℕ, suc, ◌-◌, ◌≤◌, String, ◌<>◌, ◌≡◌, refl, sym, ◌∙◌, inl, inr, Bool, true,
  false, not, ◌&&◌, ◌||◌, List, arith, ◌==◌,
}
use mori_soc.Csv.Format.{
  needs_quotes, escape, write_field, Mode, feed, start_record, start_field, in_field, in_quoted,
  quote_in_quoted, eat_newline,
}
use Prim.Native.Char.{Char}
use Prim.Native.String.append
use mathlib.Core.Path.{subst}
use mori_soc.Csv.RoundTrip.Steps.{
  one_more, reading, closes_field, closes_row, opens, Plain, Plain-head, feed-char, feed-in_field,
  feed-escape,
}

module _ (limit : ℕ) where
  -- A field has been read, and the reader waits for what ends it.
  pub record IsRead (m : Mode) (alone : Bool) (f : String) (fs : List String)
      (rs : List (List String)) (b : Bool) (rest : String) : Type 0 where
    pub last_mode : Mode
    pub room : ℕ
    pub in_line : Bool
    pub closes : closes_field last_mode ≡ true
    pub closes_line :
        (opens m && not (closes_row m) && not alone) ≡ false → closes_row last_mode ≡ true
    pub read :
        feed limit (reading m "" limit fs rs) b (write_field alone f <> rest)
        ≡ feed limit (reading last_mode f room fs rs) in_line rest

  open_quote :
      (m : Mode) (fs : List String) (rs : List (List String)) (b : Bool) (s : String)
      → opens m ≡ true
      → feed limit (reading m "" limit fs rs) b (String.◌∷◌ "\"" s)
        ≡ feed limit (reading in_quoted "" limit fs rs) true s
  open_quote start_record fs rs b s h = feed-char limit _ _ b "\"" s refl refl
  open_quote start_field fs rs b s h = feed-char limit _ _ b "\"" s refl refl
  open_quote in_field fs rs b s h = cc
  open_quote quote_in_quoted fs rs b s h = cc
  open_quote in_quoted fs rs b s h = cc
  open_quote eat_newline fs rs b s h = cc

  open-Plain :
      (m : Mode) (n : ℕ) (fs : List String) (rs : List (List String)) (b : Bool) (c : Char)
      (s : String)
      → opens m ≡ true
      → Plain c
      → feed limit (reading m "" (suc n) fs rs) b (String.◌∷◌ c s)
        ≡ feed limit (reading in_field (String.◌∷◌ c String.[]) n fs rs) true s
  open-Plain start_record n fs rs b c s h (x, y, z) =
      feed-char limit (reading start_record "" (suc n) fs rs)
        (reading in_field (String.◌∷◌ c String.[]) n fs rs) b c s
        (rw (x, z, y, append.nil (String.◌∷◌ c String.[])) refl) (ground arith)
  open-Plain start_field n fs rs b c s h (x, y, z) =
      feed-char limit (reading start_field "" (suc n) fs rs)
        (reading in_field (String.◌∷◌ c String.[]) n fs rs) b c s
        (rw (x, z, y, append.nil (String.◌∷◌ c String.[])) refl) (ground arith)
  open-Plain in_field n fs rs b c s h x = cc
  open-Plain quote_in_quoted n fs rs b c s h x = cc
  open-Plain in_quoted n fs rs b c s h x = cc
  open-Plain eat_newline n fs rs b c s h x = cc

  opens-closes_field : (m : Mode) → opens m ≡ true → closes_field m ≡ true
  opens-closes_field start_record h = refl
  opens-closes_field start_field h = refl
  opens-closes_field in_field h = refl
  opens-closes_field quote_in_quoted h = refl
  opens-closes_field in_quoted h = cc
  opens-closes_field eat_newline h = cc

  not_alone :
      (m : Mode) (alone : Bool)
      → opens m ≡ true
      → (alone && true) ≡ false
      → (opens m && not (closes_row m) && not alone) ≡ false
      → closes_row m ≡ true
  not_alone m alone o a h = ground arith

  IsRead-quoted :
      (m : Mode) (alone : Bool) (f : String) (fs : List String) (rs : List (List String)) (b : Bool)
      (rest : String)
      → opens m ≡ true
      → size f ≤ limit
      → (needs_quotes f || (alone && f == "")) ≡ true
      → IsRead m alone f fs rs b rest
  unfolding write_field
  IsRead-quoted m alone f fs rs b rest o fits q =
      let (b', ih) =
        feed-escape limit f "" limit (limit - size f) fs rs true (String.◌∷◌ "\"" rest)
          (omega (arith, fits)) in
      record {
        last_mode = quote_in_quoted;
        room = limit - size f;
        in_line = true;
        closes = refl;
        closes_line = λ _. refl;
        read =
            rw
              (
                q,
                append.cons "\"" (escape f <> String.◌∷◌ "\"" String.[]) rest,
                one_more (escape f) "\"" rest,
              )
              (open_quote m fs rs b _ o
                ∙ ih
                ∙ rw (append.nil f) (
                    feed-char limit _ (reading quote_in_quoted f (limit - size f) fs rs) b' "\""
                      rest refl refl));
      }

  IsRead-plain :
      (m : Mode) (alone : Bool) (f : String) (fs : List String) (rs : List (List String)) (b : Bool)
      (rest : String)
      → opens m ≡ true
      → size f ≤ limit
      → (needs_quotes f || (alone && f == "")) ≡ false
      → IsRead m alone f fs rs b rest
  unfolding write_field
  IsRead-plain m alone String.[] fs rs b rest o fits q = record {
    last_mode = m;
    room = limit;
    in_line = b;
    closes = opens-closes_field m o;
    closes_line = not_alone m alone o q;
    read = rw (q, append.nil rest) refl;
  }
  IsRead-plain m alone (String.◌∷◌ c f) fs rs b rest o fits q =
      let (plain, others) = Plain-head c f (ground arith) in
      let (b', ih) =
        feed-in_field limit f (String.◌∷◌ c String.[]) (limit - 1) (limit - size (String.◌∷◌ c f))
          fs rs true rest (omega (arith, fits)) others in
      let some_room : limit ≡ suc (limit - 1) = omega (arith, fits) in
      record {
        last_mode = in_field;
        room = limit - size (String.◌∷◌ c f);
        in_line = b';
        closes = refl;
        closes_line = λ _. refl;
        read =
            rw (q, append.cons c f rest)
              (subst
                  (λ n.
                    feed limit (reading m "" n fs rs) b (String.◌∷◌ c (f <> rest))
                    ≡ feed limit (reading in_field (String.◌∷◌ c String.[]) (limit - 1) fs rs) true
                        (f <> rest))
                  (sym some_room) (open-Plain m (limit - 1) fs rs b c (f <> rest) o plain)
                ∙ ih
                ∙ rw (append.cons c String.[] f, append.nil f) refl);
      }

  pub IsRead-field :
      (m : Mode) (alone : Bool) (f : String) (fs : List String) (rs : List (List String)) (b : Bool)
      (rest : String)
      → opens m ≡ true
      → size f ≤ limit
      → IsRead m alone f fs rs b rest
  IsRead-field m alone f fs rs b rest o fits =
      elim (Bool-cases (needs_quotes f || (alone && f == ""))) [
        | inl q ↦ IsRead-quoted m alone f fs rs b rest o fits q
        | inr q ↦ IsRead-plain m alone f fs rs b rest o fits q
      ]
