-- ===== src/Text/Pairs.antt =====
-- The two switches agree, and the closing marks are those that the formatter writes itself.
use msime_linux.Base.{
  ℕ, ◌<◌, ◌≡◌, ◌≢◌, refl, Bool, true, false, not, ◌&&◌, ◌||◌, [], arith, ◌==◌, if◌then◌else◌,
  is_empty, bytes_eq, bytes_eq_iff, passes, test_of_passes, Bool-cases, inl, inr,
}
use msime_linux.Text.Formatter.{
  Formatter, chinese, fixed_mark, is_punctuation, paired_punctuation_closing,
}

abbrev keeps_state : ℕ → Bool
keeps_state c = c == b'"' || c == b'\'' || c == b'<' || c == b'>'

same : Bool → Bool → Bool
same true b = b
same false b = not b

same-eq : (a b : Bool) → same a b ≡ true → a ≡ b
unfolding same
same-eq true b h = ground arith
same-eq false b h = ground arith

punctuation_table :
    passes (λ c. same (is_punctuation c) (keeps_state c || not (is_empty (fixed_mark c)))) 256
    ≡ true
unfolding passes is_punctuation fixed_mark same
punctuation_table = refl

chinese_fixed : (f : Formatter) (c : ℕ) → keeps_state c ≡ false → chinese f c ≡ (fixed_mark c, f)
unfolding chinese
chinese_fixed f c h = ground arith

chinese_stateful : (f : Formatter) (c : ℕ) → keeps_state c ≡ true → is_empty (chinese f c).0 ≡ false
unfolding chinese
chinese_stateful f c h = ground arith

-- For every byte and every state of the formatter, `is_punctuation` says exactly whether the
-- formatter has a mark for it.
pub is_punctuation-chinese :
    (f : Formatter) (c : ℕ) → c < 256 → is_punctuation c ≡ not (is_empty (chinese f c).0)
is_punctuation-chinese f c h =
    let table = same-eq _ _ (test_of_passes _ 256 c punctuation_table h) in
    elim (Bool-cases (keeps_state c)) [
      | inl k ↦ rw (chinese_stateful f c k) (ground (arith, table))
      | inr k ↦ rw (chinese_fixed f c k) (ground (arith, table))
    ]

-- The key that closes what a key opens.
unfoldable pub closer : ℕ → ℕ
closer c =
    if c == b'('
    then b')'
    else if c == b'['
    then b']'
    else if c == b'{'
    then b'}'
    else if c == b'<'
    then b'>'
    else c

closing_table :
    passes
      (λ c.
        keeps_state c
        || is_empty (paired_punctuation_closing (fixed_mark c))
        || (not (keeps_state (closer c))
            && bytes_eq (paired_punctuation_closing (fixed_mark c)) (fixed_mark (closer c))))
      256
    ≡ true
unfolding passes fixed_mark paired_punctuation_closing bytes_eq closer
closing_table = refl

closing_stateful :
    (f : Formatter) (c : ℕ)
    → keeps_state c ≡ true
    → paired_punctuation_closing (chinese f c).0 ≢ []
    → paired_punctuation_closing (chinese f c).0 ≡ (chinese (chinese f c).1 (closer c)).0
unfolding chinese paired_punctuation_closing bytes_eq closer
closing_stateful f c k h = ground arith

closing_fixed :
    (f : Formatter) (c : ℕ)
    → keeps_state c ≡ false
    → (keeps_state c
        || is_empty (paired_punctuation_closing (fixed_mark c))
        || (not (keeps_state (closer c))
            && bytes_eq (paired_punctuation_closing (fixed_mark c)) (fixed_mark (closer c))))
      ≡ true
    → paired_punctuation_closing (chinese f c).0 ≢ []
    → paired_punctuation_closing (chinese f c).0 ≡ (chinese (chinese f c).1 (closer c)).0
closing_fixed f c k table h = ground (
  arith,
  chinese_fixed f c k,
  chinese_fixed f (closer c),
  bytes_eq_iff (paired_punctuation_closing (fixed_mark c)) (fixed_mark (closer c)),
)

-- Whenever the mark that a key writes is one for which a closing mark is inserted, that closing
-- mark is the very mark that the formatter, in the state it is then in, writes for the closing key.
pub paired_punctuation_closing-chinese :
    (f : Formatter) (c : ℕ)
    → c < 256
    → paired_punctuation_closing (chinese f c).0 ≢ []
    → paired_punctuation_closing (chinese f c).0 ≡ (chinese (chinese f c).1 (closer c)).0
paired_punctuation_closing-chinese f c lt h = elim (Bool-cases (keeps_state c)) [
  | inl k ↦ closing_stateful f c k h
  | inr k ↦ let table = test_of_passes _ 256 c closing_table lt in closing_fixed f c k table h
]
