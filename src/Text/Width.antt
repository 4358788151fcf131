-- ===== src/Text/Width.antt =====
-- `to_full_width` of src/TextTransform.cpp.
use msime_linux.Base.{
  ℕ, ◌+◌, ◌-◌, ◌≤◌, ◌≡◌, ◌||◌, some, [], arith, ltb, ◌==◌, if◌then◌else◌, Bytes, ap, ◌∙◌, sym,
}
use mathlib.Core.List.{append-nil}
use msime_linux.Text.Utf8.{encode_utf8, decode_utf8, decode_utf8-encode_utf8}

-- `char` is the unsigned value of the byte.
unfoldable pub to_full_width : ℕ → Bytes
to_full_width value =
    if value == 0x20
    then encode_utf8 0x3000
    else if ltb value 0x21 || ltb 0x7e value
    then []
    else encode_utf8 (0xff01 + value - 0x21)

abbrev pub wide_code_point : ℕ → ℕ
wide_code_point c = if c == 0x20 then 0x3000 else c + 0xfee0

to_full_width-encode_utf8 :
    (c : ℕ) → 0x20 ≤ c → c ≤ 0x7e → to_full_width c ≡ encode_utf8 (wide_code_point c)
unfolding to_full_width
to_full_width-encode_utf8 c l h = ground arith

-- For a printable ASCII byte, the converted text read as UTF-8 is one character and nothing more:
-- the ideographic space for a blank, and the mark 0xfee0 above the byte otherwise.
pub decode_utf8-to_full_width :
    (c : ℕ) → 0x20 ≤ c → c ≤ 0x7e → decode_utf8 (to_full_width c) ≡ some (wide_code_point c, [])
decode_utf8-to_full_width c l h =
    ap decode_utf8 (to_full_width-encode_utf8 c l h ∙ sym (append-nil _))
    ∙ decode_utf8-encode_utf8 (wide_code_point c) [] (ground arith)
