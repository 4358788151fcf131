-- ===== src/Text/Utf8.antt =====
-- `encode_utf8` of src/TextTransform.cpp, against an independent strict reader of UTF-8.
use msime_linux.Base.{
  ℕ, ◌+◌, ◌-◌, ◌*◌, ◌/◌, ◌%◌, ◌^◌, ◌≤◌, ◌<◌, ◌≡◌, ◌&&◌, Option, none, some, [], ◌∷◌, ◌++◌, arith,
  leb, ltb, if◌then◌else◌, bit_or, Bytes, bit_or-continuation, bit_or-lead2, bit_or-lead3,
  bit_or-lead4, Bool-cases, inl, inr, leb→le,
}

-- `static_cast<char>`, as the unsigned value of the byte.
abbrev to_char : ℕ → ℕ
to_char x = x % 256

-- `x >> k`, `x & 0x3f`.
abbrev shr : ℕ → ℕ → ℕ
shr x k = x / 2 ^ k

abbrev low6 : ℕ → ℕ
low6 x = x % 64

unfoldable pub encode_utf8 : ℕ → Bytes
encode_utf8 c =
    if leb c 0x7f
    then to_char c ∷ []
    else if leb c 0x7ff
    then to_char (bit_or 0xc0 (shr c 6)) ∷ to_char (bit_or 0x80 (low6 c)) ∷ []
    else if leb c 0xffff
    then to_char (bit_or 0xe0 (shr c 12))
      ∷ to_char (bit_or 0x80 (low6 (shr c 6)))
      ∷ to_char (bit_or 0x80 (low6 c))
      ∷ []
    else to_char (bit_or 0xf0 (shr c 18))
      ∷ to_char (bit_or 0x80 (low6 (shr c 12)))
      ∷ to_char (bit_or 0x80 (low6 (shr c 6)))
      ∷ to_char (bit_or 0x80 (low6 c))
      ∷ []

-- Reads one sequence: the lead byte gives its length, each further byte adds six bits.
abbrev continue : ℕ → Bytes → Option (ℕ × Bytes)
continue high [] = none
continue high (b ∷ rest) =
    if leb 0x80 b && ltb b 0xc0 then some (high * 64 + (b - 0x80), rest) else none

infixl 5 ◌>>=◌
abbrev ◌>>=◌ : Option (ℕ × Bytes) → (ℕ × Bytes → Option (ℕ × Bytes)) → Option (ℕ × Bytes)
none >>= f = none
some a >>= f = f a

abbrev tail1 : ℕ × Bytes → Option (ℕ × Bytes)
tail1 (high, rest) = continue high rest

-- The shortest form only: a code point below `low` or from `high` on is refused.
abbrev between : ℕ → ℕ → Option (ℕ × Bytes) → Option (ℕ × Bytes)
between low high none = none
between low high (some (c, rest)) = if leb low c && ltb c high then some (c, rest) else none

-- What follows a lead byte, by the lead byte's range. Each length is taken only for the code points
-- that no shorter sequence writes; surrogates, which `encode_utf8` writes too, are read.
unfoldable pub decode_utf8 : Bytes → Option (ℕ × Bytes)
decode_utf8 [] = none
decode_utf8 (b ∷ rest) =
    if ltb b 0x80
    then some (b, rest)
    else if ltb b 0xc0
    then none
    else if ltb b 0xe0
    then between 0x80 0x800 (continue (b - 0xc0) rest)
    else if ltb b 0xf0
    then between 0x800 0x10000 (continue (b - 0xe0) rest >>= tail1)
    else if ltb b 0xf8
    then between 0x10000 0x110000 (continue (b - 0xf0) rest >>= tail1 >>= tail1)
    else none

encode1 : (c : ℕ) (rest : Bytes) → c ≤ 0x7f → decode_utf8 (encode_utf8 c ++ rest) ≡ some (c, rest)
unfolding encode_utf8 decode_utf8
encode1 c rest h = ground arith

encode2 :
    (c : ℕ) (rest : Bytes)
    → 0x7f < c
    → c ≤ 0x7ff
    → decode_utf8 (encode_utf8 c ++ rest) ≡ some (c, rest)
unfolding encode_utf8 decode_utf8
encode2 c rest l h =
    ground
      (arith, bit_or-lead2 (c / 2 ^ 6) (omega arith), bit_or-continuation (c % 64) (omega arith))

encode3 :
    (c : ℕ) (rest : Bytes)
    → 0x7ff < c
    → c ≤ 0xffff
    → decode_utf8 (encode_utf8 c ++ rest) ≡ some (c, rest)
unfolding encode_utf8 decode_utf8
encode3 c rest l h = ground (
  arith,
  bit_or-lead3 (c / 2 ^ 12) (omega arith),
  bit_or-continuation (c / 2 ^ 6 % 64) (omega arith),
  bit_or-continuation (c % 64) (omega arith),
)

encode4 :
    (c : ℕ) (rest : Bytes)
    → 0xffff < c
    → c < 0x110000
    → decode_utf8 (encode_utf8 c ++ rest) ≡ some (c, rest)
unfolding encode_utf8 decode_utf8
encode4 c rest l h = ground (
  arith,
  bit_or-lead4 (c / 2 ^ 18) (omega arith),
  bit_or-continuation (c / 2 ^ 12 % 64) (omega arith),
  bit_or-continuation (c / 2 ^ 6 % 64) (omega arith),
  bit_or-continuation (c % 64) (omega arith),
)

-- For every code point below 0x110000, in front of any further bytes, a reader that refuses overlong
-- forms reads what `encode_utf8` writes as that code point and leaves exactly those further bytes.
pub decode_utf8-encode_utf8 :
    (c : ℕ) (rest : Bytes) → c < 0x110000 → decode_utf8 (encode_utf8 c ++ rest) ≡ some (c, rest)
decode_utf8-encode_utf8 c rest h = elim (Bool-cases (leb c 0x7f)) [
  | inl a ↦ encode1 c rest (omega (arith, leb→le c 0x7f a))
  | inr a ↦ elim (Bool-cases (leb c 0x7ff)) [
    | inl b ↦ encode2 c rest (ground arith) (ground arith)
    | inr b ↦ elim (Bool-cases (leb c 0xffff)) [
      | inl d ↦ encode3 c rest (ground arith) (ground arith)
      | inr d ↦ encode4 c rest (ground arith) h
    ]
  ]
]
