-- ===== src/Controller/Pairing.antt =====
-- Paired marks: what is inserted with its closing mark is stepped over when that mark is typed.
use msime_linux.Base.{
  ℕ, ◌<◌, ◌≡◌, refl, sym, ap, ◌∙◌, Bool, true, false, arith, if◌then◌else◌, Option, none, some,
  ◌&&◌, is_empty, List, [], ◌∷◌, ◌++◌, Bytes, bytes_eq, bytes_eq_refl, last?-concat,
  drop_last-concat,
}
use msime_linux.Text.Formatter
use msime_linux.Text.Formatter.{
  Formatter, is_punctuation, should_keep_ascii_punctuation, paired_punctuation_closing,
}
use msime_linux.Text.Pairs.{closer, paired_punctuation_closing-chinese}
use msime_linux.Controller.Types.{Result, is_chinese, is_full}
use msime_linux.Controller.State.{Controller, clear_smart_punctuation_history}
use msime_linux.Controller.Punctuation.{
  choose_punctuation, committed_smart_ascii, reopen_quote, commit_mark, commit_paired,
  place_punctuation, append_commit,
}

-- The keys whose marks are paired and close by another key.
pub data IsBracketKey : ℕ → Type 0 where
  round : IsBracketKey b'('
  square : IsBracketKey b'['
  curly : IsBracketKey b'{'
  angle : IsBracketKey b'<'

-- What the two keys of a pair have in common: neither is kept as ASCII, and neither is a quote.
record IsPlain (key : ℕ) : Type 0 where
  mark : is_punctuation key ≡ true
  smart : (before : Option ℕ) → should_keep_ascii_punctuation key before ≡ false
  quote : (m : Bytes) → reopen_quote key m ≡ m
  written : (f : Formatter) → is_empty (Formatter.chinese f key).0 ≡ false

opening-IsPlain : {key : ℕ} → IsBracketKey key → IsPlain key
unfolding is_punctuation should_keep_ascii_punctuation reopen_quote Formatter.chinese
    Formatter.fixed_mark
opening-IsPlain round = record {
  mark = refl;
  smart = elim [ none ↦ refl | some b ↦ refl ];
  quote = λ m. refl;
  written = λ f. refl;
}
opening-IsPlain square = record {
  mark = refl;
  smart = elim [ none ↦ refl | some b ↦ refl ];
  quote = λ m. refl;
  written = λ f. refl;
}
opening-IsPlain curly = record {
  mark = refl;
  smart = elim [ none ↦ refl | some b ↦ refl ];
  quote = λ m. refl;
  written = λ f. refl;
}
opening-IsPlain angle = record {
  mark = refl;
  smart = elim [ none ↦ refl | some b ↦ refl ];
  quote = λ m. refl;
  written = λ f. ground arith;
}

closing-IsPlain : {key : ℕ} → IsBracketKey key → IsPlain (closer key)
unfolding closer is_punctuation should_keep_ascii_punctuation reopen_quote Formatter.chinese
    Formatter.fixed_mark
closing-IsPlain round = record {
  mark = refl;
  smart = elim [ none ↦ refl | some b ↦ refl ];
  quote = λ m. refl;
  written = λ f. refl;
}
closing-IsPlain square = record {
  mark = refl;
  smart = elim [ none ↦ refl | some b ↦ refl ];
  quote = λ m. refl;
  written = λ f. refl;
}
closing-IsPlain curly = record {
  mark = refl;
  smart = elim [ none ↦ refl | some b ↦ refl ];
  quote = λ m. refl;
  written = λ f. refl;
}
closing-IsPlain angle = record {
  mark = refl;
  smart = elim [ none ↦ refl | some b ↦ refl ];
  quote = λ m. refl;
  written = λ f. ground arith;
}

pick {ℓ} :
    {A : Type ℓ} (a b : Bool) (x y z : A)
    → a ≡ false
    → b ≡ true
    → (if a then x else if b then y else z) ≡ y
pick a b x y z p q = rw (p, q)

module _ {S W : Type 0} where
  -- Chinese punctuation at half width, with pairing on.
  pub record Pairs (c : Controller S W) : Type 0 where
    pub paired : c.options.paired_punctuation ≡ true
    pub mode : is_chinese c.punctuation_mode ≡ true
    pub width : is_full c.character_width ≡ false

  choose_plain :
      (had : Bool) (key : ℕ) (before : Option ℕ) (c : Controller S W)
      → Pairs c
      → IsPlain key
      → choose_punctuation c had key before ≡ Formatter.chinese c.punctuation_formatter key
  unfolding choose_punctuation
  choose_plain had key before c p plain =
      ground (arith, p.mode, p.width, plain.mark, plain.smart before)

  committed_off :
      (key : ℕ) (before : Option ℕ) (m : Bytes) (c : Controller S W)
      → IsPlain key
      → committed_smart_ascii c m key before ≡ false
  unfolding committed_smart_ascii
  committed_off key before m c plain = ground (arith, plain.smart before)

  -- With a plain key the function is its pairing step.
  place_plain :
      (r : Result) (had : Bool) (key : ℕ) (before : Option ℕ) (now : ℕ) (c : Controller S W)
      → Pairs c
      → IsPlain key
      → place_punctuation r had key before now c
        ≡ commit_paired r
            (Formatter.chinese c.punctuation_formatter key).0
            false
            key
            now
            (record c { punctuation_formatter = (Formatter.chinese c.punctuation_formatter key).1 })
  unfolding place_punctuation
  place_plain r had key before now c p plain =
      let m = (Formatter.chinese c.punctuation_formatter key).0 in
      let f = (Formatter.chinese c.punctuation_formatter key).1 in
      rw (choose_plain had key before c p plain) (
        pick _ _ _ _ _ (plain.written c.punctuation_formatter) (both p.paired p.mode)
        ∙ rw (
          plain.quote m,
          committed_off key before m (record c { punctuation_formatter = f }) plain,
        ))
    where
      both : {a b : Bool} → a ≡ true → b ≡ true → (a && b) ≡ true
      both q t = rw (q, t)

  -- A mark with a closing mark.
  pair_inserted :
      (r : Result) (mark : Bytes) (key now : ℕ) (c : Controller S W)
      → is_empty (paired_punctuation_closing mark) ≡ false
      → let q = commit_paired r mark false key now c in
        (q.0.commit ≡ append_commit r.commit (mark ++ paired_punctuation_closing mark))
        × (q.0.cursor_left ≡ 1)
        × (q.1
            ≡ clear_smart_punctuation_history (record c {
              pending_paired_closings =
                  c.pending_paired_closings ++ (paired_punctuation_closing mark ∷ []);
            }))
  unfolding commit_paired commit_mark
  pair_inserted r mark key now c h = rw h (refl, refl, refl)

  -- A mark that closes nothing here and is the innermost pending one.
  pair_stepped_over :
      (r : Result) (mark : Bytes) (key now : ℕ) (c : Controller S W) (pending : List Bytes)
      → is_empty (paired_punctuation_closing mark) ≡ true
      → c.pending_paired_closings ≡ pending ++ (mark ∷ [])
      → let q = commit_paired r mark false key now c in
        (q.0 ≡ record r { handled = true; cursor_right = 1 })
        × (q.1 ≡ clear_smart_punctuation_history (record c { pending_paired_closings = pending }))
  unfolding commit_paired
  pair_stepped_over r mark key now c pending h e =
      rw (h, e, last?-concat pending mark, drop_last-concat pending mark, bytes_eq_refl mark)
        (refl, refl)

-- No closing mark opens a pair itself.
closing_opens_nothing :
    {key : ℕ} (f : Formatter)
    → IsBracketKey key
    → (is_empty (paired_punctuation_closing (Formatter.chinese f key).0) ≡ false)
      × (is_empty
            (paired_punctuation_closing (paired_punctuation_closing (Formatter.chinese f key).0))
          ≡ true)
unfolding Formatter.chinese Formatter.fixed_mark paired_punctuation_closing bytes_eq
closing_opens_nothing f round = (refl, refl)
closing_opens_nothing f square = (refl, refl)
closing_opens_nothing f curly = (refl, refl)
closing_opens_nothing f angle = (ground arith, ground arith)

-- Going in and out leaves the formatter as it was.
formatter_returns :
    {key : ℕ} (f : Formatter)
    → IsBracketKey key
    → (Formatter.chinese (Formatter.chinese f key).1 (closer key)).1 ≡ f
unfolding Formatter.chinese closer
formatter_returns f round = refl
formatter_returns f square = refl
formatter_returns f curly = refl
formatter_returns f angle = ground arith

closing_written :
    {key : ℕ} (f : Formatter)
    → IsBracketKey key
    → (Formatter.chinese (Formatter.chinese f key).1 (closer key)).0
      ≡ paired_punctuation_closing (Formatter.chinese f key).0
closing_written f k = sym (
    paired_punctuation_closing-chinese f _ (below k)
      (λ e. cc ((closing_opens_nothing f k).0, ap is_empty e)))
  where
    below : {key : ℕ} → IsBracketKey key → key < 256
    below round = omega arith
    below square = omega arith
    below curly = omega arith
    below angle = omega arith

-- The mark that a bracket key writes in a state, and the mark that closes it.
abbrev pub mark_of : {S W : Type 0} → Controller S W → ℕ → Bytes
mark_of c key = (Formatter.chinese c.punctuation_formatter key).0

abbrev pub closing_of : {S W : Type 0} → Controller S W → ℕ → Bytes
closing_of c key = paired_punctuation_closing (mark_of c key)

module _ {S W : Type 0} where
  -- The members once a pair was inserted.
  abbrev inside : Controller S W → ℕ → Controller S W
  inside c key = clear_smart_punctuation_history (record c {
    punctuation_formatter = (Formatter.chinese c.punctuation_formatter key).1;
    pending_paired_closings = c.pending_paired_closings ++ (closing_of c key ∷ []);
  })

  opens :
      (r : Result) (had : Bool) {key : ℕ} (before : Option ℕ) (now : ℕ) (c : Controller S W)
      → IsBracketKey key
      → Pairs c
      → let q = place_punctuation r had key before now c in
        (q.0.commit ≡ append_commit r.commit (mark_of c key ++ closing_of c key))
        × (q.0.cursor_left ≡ 1)
        × (q.1 ≡ inside c key)
  opens r had {key} before now c k p =
      rw (place_plain r had key before now c p (opening-IsPlain k)) (
        pair_inserted r (mark_of c key) key now
          (record c { punctuation_formatter = (Formatter.chinese c.punctuation_formatter key).1 })
          (closing_opens_nothing c.punctuation_formatter k).0)

  closes :
      (r : Result) (had : Bool) {key : ℕ} (before : Option ℕ) (now : ℕ) (c : Controller S W)
      → IsBracketKey key
      → Pairs c
      → let q = place_punctuation r had (closer key) before now (inside c key) in
        (q.0 ≡ record r { handled = true; cursor_right = 1 })
        × (q.1 ≡ clear_smart_punctuation_history c)
  unfolding clear_smart_punctuation_history
  closes r had {key} before now c k p =
      let f = c.punctuation_formatter in
      rw
        (
          place_plain r had (closer key) before now (inside c key)
              (record { paired = p.paired; mode = p.mode; width = p.width }) (closing-IsPlain k),
          closing_written f k,
          formatter_returns f k,
        )
        (pair_stepped_over r (closing_of c key) (closer key) now
          (record (inside c key) { punctuation_formatter = f }) c.pending_paired_closings
          (closing_opens_nothing f k).1 refl)

  -- Where Chinese marks are paired at half width, a bracket key commits its mark together with the
  -- closing mark, behind whatever the finished composition commits, and puts the caret between the
  -- two; if the key of the closing mark follows at once, at any time and in any context, nothing
  -- more is committed, the caret steps over the mark that is there, and the controller is as it
  -- was before the bracket, but for the forgotten smart mark.
  pub type_over :
      (r r' : Result) (had had' : Bool) {key : ℕ} (before before' : Option ℕ) (now later : ℕ)
      (c : Controller S W)
      → IsBracketKey key
      → Pairs c
      → let q = place_punctuation r had key before now c in
        let q' = place_punctuation r' had' (closer key) before' later q.1 in
        (q.0.commit ≡ append_commit r.commit (mark_of c key ++ closing_of c key))
        × (q.0.cursor_left ≡ 1)
        × (q'.0 ≡ record r' { handled = true; cursor_right = 1 })
        × (q'.1 ≡ clear_smart_punctuation_history c)
  type_over r r' had had' {key} before before' now later c k p =
      let o = opens r had before now c k p in
      let s = closes r' had' before' later c k p in (o.0, o.1, rw o.2 s.0, rw o.2 s.1)
