-- ===== src/Csv/RoundTrip/Steps.antt =====
-- What the reader does with one character, with the end of a field and with the end of a row.
use mori_soc.Prelude.{
  size, eqb, if◌then◌else◌, Bool-cases, ℕ, zero, suc, ◌+◌, String, ◌<>◌, ◌≡◌, refl, ap, ◌∙◌, inl,
  inr, Bool, true, false, not, some, List, [], ◌∷◌, ◌++◌, arith,
}
use mori_soc.Csv.Format.{
  is_comma, is_quote, is_newline, needs_quotes, escape, end_of_row, Mode, Reader, saved, parse_mode,
  end_mode, feed, start_record, start_field, in_field, in_quoted, quote_in_quoted, eat_newline,
}
use Prim.Native.Char.{Char, code}
use Prim.Native.String.append
use text.Mathlib.TextLemmas.{append-nil, append_assoc}

abbrev pub reading : Mode → String → ℕ → List String → List (List String) → Reader
reading mode field room fields rows = record {
  mode = mode;
  field = field;
  room = room;
  fields = fields;
  rows = rows;
}

pub one_more :
    (w : String) (c : Char) (s : String) → (w <> String.◌∷◌ c String.[]) <> s ≡ w <> String.◌∷◌ c s
one_more w c s =
    append_assoc w (String.◌∷◌ c String.[]) s
    ∙ ap (λ t. w <> t) (append.cons c String.[] s ∙ ap (String.◌∷◌ c) (append.nil s))

-- A character that needs no quotes.
abbrev pub Plain : Char → Type 0
Plain c = (is_newline c ≡ false) × (is_comma c ≡ false) × (is_quote c ≡ false)

pub Plain-head :
    (c : Char) (s : String)
    → needs_quotes (String.◌∷◌ c s) ≡ false
    → Plain c × (needs_quotes s ≡ false)
unfolding needs_quotes
Plain-head c s h = ground arith

-- The modes in which a comma ends a field, and those in which a line break ends it too.
abbrev pub closes_field : Mode → Bool
closes_field in_quoted = false
closes_field eat_newline = false
closes_field _ = true

abbrev pub closes_row : Mode → Bool
closes_row start_record = false
closes_row m = closes_field m

abbrev pub opens : Mode → Bool
opens start_record = true
opens start_field = true
opens _ = false

module _ (limit : ℕ) where
  pub feed-step :
      (p q : Reader) (b : Bool) (c : Char) (s : String)
      → parse_mode limit p.mode p c ≡ some q
      → feed limit p b (String.◌∷◌ c s)
        ≡ feed limit
            (if eqb (code c) 10 then end_mode limit q.mode q else q)
            (not (eqb (code c) 10))
            s
  unfolding feed
  feed-step p q b c s h = rw (h, feed) refl

  -- A character that ends no line.
  pub feed-char :
      (p q : Reader) (b : Bool) (c : Char) (s : String)
      → parse_mode limit p.mode p c ≡ some q
      → eqb (code c) 10 ≡ false
      → feed limit p b (String.◌∷◌ c s) ≡ feed limit q true s
  feed-char p q b c s h n = feed-step p q b c s h ∙ rw (n) refl

  pub Plain-in_field :
      (w : String) (n : ℕ) (fs : List String) (rs : List (List String)) (b : Bool) (c : Char)
      (s : String)
      → Plain c
      → feed limit (reading in_field w (suc n) fs rs) b (String.◌∷◌ c s)
        ≡ feed limit (reading in_field (w <> String.◌∷◌ c String.[]) n fs rs) true s
  Plain-in_field w n fs rs b c s (a, d, e) =
      feed-char (reading in_field w (suc n) fs rs)
        (reading in_field (w <> String.◌∷◌ c String.[]) n fs rs) b c s (rw (a, d) refl)
        (ground arith)

  pub feed-in_field :
      (f w : String) (n k : ℕ) (fs : List String) (rs : List (List String)) (b : Bool)
      (rest : String)
      → n ≡ size f + k
      → needs_quotes f ≡ false
      → (b' : Bool) × (feed limit (reading in_field w n fs rs) b (f <> rest)
          ≡ feed limit (reading in_field (w <> f) k fs rs) b' rest)
  feed-in_field String.[] w n k fs rs b rest e h =
      let same : n ≡ k = omega (arith, e) in (b, rw (append.nil rest, append-nil w, same) refl)
  feed-in_field (String.◌∷◌ d f) w zero k fs rs b rest e h = absurd (omega (arith, e))
  feed-in_field (String.◌∷◌ d f) w (suc n) k fs rs b rest e h =
      let (plain, others) = Plain-head d f h in
      let (b', ih) =
        feed-in_field f (w <> String.◌∷◌ d String.[]) n k fs rs true rest (omega (arith, e))
          others in
      (
        b',
        rw (append.cons d f rest)
            (Plain-in_field w n fs rs b d (f <> rest) plain ∙ ih ∙ rw (one_more w d f) refl),
      )

  in_quoted_step :
      (w : String) (n : ℕ) (fs : List String) (rs : List (List String)) (b : Bool) (c : Char)
      (s : String)
      → is_quote c ≡ false
      → feed limit (reading in_quoted w (suc n) fs rs) b (String.◌∷◌ c s)
        ≡ feed limit
            (reading in_quoted (w <> String.◌∷◌ c String.[]) n fs rs)
            (not (eqb (code c) 10))
            s
  in_quoted_step w n fs rs b c s h =
      feed-step (reading in_quoted w (suc n) fs rs)
        (reading in_quoted (w <> String.◌∷◌ c String.[]) n fs rs) b c s (rw (h) refl)
      ∙ ground arith

  quote_step :
      (w : String) (n : ℕ) (fs : List String) (rs : List (List String)) (b : Bool) (c : Char)
      (s : String)
      → is_quote c ≡ true
      → feed limit (reading in_quoted w (suc n) fs rs) b (String.◌∷◌ "\"" (String.◌∷◌ c s))
        ≡ feed limit (reading in_quoted (w <> String.◌∷◌ c String.[]) n fs rs) true s
  quote_step w n fs rs b c s h =
      feed-char (reading in_quoted w (suc n) fs rs) (reading quote_in_quoted w (suc n) fs rs) b "\""
        (String.◌∷◌ c s) refl refl
      ∙ feed-char (reading quote_in_quoted w (suc n) fs rs)
          (reading in_quoted (w <> String.◌∷◌ c String.[]) n fs rs) true c s (rw (h) refl)
          (ground arith)

  pub feed-escape :
      (f w : String) (n k : ℕ) (fs : List String) (rs : List (List String)) (b : Bool)
      (rest : String)
      → n ≡ size f + k
      → (b' : Bool) × (feed limit (reading in_quoted w n fs rs) b (escape f <> rest)
          ≡ feed limit (reading in_quoted (w <> f) k fs rs) b' rest)
  unfolding escape
  feed-escape String.[] w n k fs rs b rest e =
      let same : n ≡ k = omega (arith, e) in (b, rw (append.nil rest, append-nil w, same) refl)
  feed-escape (String.◌∷◌ d f) w zero k fs rs b rest e = absurd (omega (arith, e))
  feed-escape (String.◌∷◌ d f) w (suc n) k fs rs b rest e = elim (Bool-cases (is_quote d)) [
    | inl q ↦
        let (b', ih) =
          feed-escape f (w <> String.◌∷◌ d String.[]) n k fs rs true rest (omega (arith, e)) in
        (
          b',
          rw (q, append.cons "\"" (String.◌∷◌ d (escape f)) rest, append.cons d (escape f) rest)
              (quote_step w n fs rs b d (escape f <> rest) q ∙ ih ∙ rw (one_more w d f) refl),
        )
    | inr q ↦
        let (b', ih) =
          feed-escape f (w <> String.◌∷◌ d String.[]) n k fs rs (not (eqb (code d) 10)) rest
            (omega (arith, e)) in
        (
          b',
          rw (q, append.cons d (escape f) rest)
              (in_quoted_step w n fs rs b d (escape f <> rest) q ∙ ih ∙ rw (one_more w d f) refl),
        )
  ]

  pub feed-comma :
      (m : Mode) (w : String) (n : ℕ) (fs : List String) (rs : List (List String)) (b : Bool)
      (s : String)
      → closes_field m ≡ true
      → feed limit (reading m w n fs rs) b (String.◌∷◌ "," s)
        ≡ feed limit (reading start_field "" limit (fs ++ w ∷ []) rs) true s
  feed-comma start_record w n fs rs b s h = feed-char _ _ b "," s refl refl
  feed-comma start_field w n fs rs b s h = feed-char _ _ b "," s refl refl
  feed-comma in_field w n fs rs b s h = feed-char _ _ b "," s refl refl
  feed-comma quote_in_quoted w n fs rs b s h = feed-char _ _ b "," s refl refl
  feed-comma in_quoted w n fs rs b s h = cc
  feed-comma eat_newline w n fs rs b s h = cc

  pub feed-end_of_row :
      (m : Mode) (w : String) (n : ℕ) (fs : List String) (rs : List (List String)) (b : Bool)
      (s : String)
      → closes_row m ≡ true
      → feed limit (reading m w n fs rs) b (end_of_row s)
        ≡ feed limit (reading start_record "" limit [] (rs ++ (fs ++ w ∷ []) ∷ [])) false s
  feed-end_of_row start_field w n fs rs b s h =
      feed-char _ (saved limit eat_newline (reading start_field w n fs rs)) b "\r" _ refl refl
      ∙ feed-step _ (saved limit eat_newline (reading start_field w n fs rs)) true "\n" s refl
  feed-end_of_row in_field w n fs rs b s h =
      feed-char _ (saved limit eat_newline (reading in_field w n fs rs)) b "\r" _ refl refl
      ∙ feed-step _ (saved limit eat_newline (reading in_field w n fs rs)) true "\n" s refl
  feed-end_of_row quote_in_quoted w n fs rs b s h =
      feed-char _ (saved limit eat_newline (reading quote_in_quoted w n fs rs)) b "\r" _ refl refl
      ∙ feed-step _ (saved limit eat_newline (reading quote_in_quoted w n fs rs)) true "\n" s refl
  feed-end_of_row start_record w n fs rs b s h = cc
  feed-end_of_row in_quoted w n fs rs b s h = cc
  feed-end_of_row eat_newline w n fs rs b s h = cc
