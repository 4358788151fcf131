-- ===== src/Text/Tests.antt =====
-- Tests of the conversions, and each theorem at an input.
use msime_linux.Base.{◌≡◌, true, not, some, [], ◌∷◌, ◌++◌, arith, is_empty, bytes_eq}
use msime_linux.Text.Utf8.{encode_utf8, decode_utf8, decode_utf8-encode_utf8}
use msime_linux.Text.Formatter.{
  initial_formatter, chinese, fixed_mark, is_punctuation, paired_punctuation_closing,
}
use msime_linux.Text.Nesting.{Titles, done, title, keys, render, write, write-keys}
use msime_linux.Text.Pairs.{closer, is_punctuation-chinese, paired_punctuation_closing-chinese}
use msime_linux.Text.Width.{to_full_width, decode_utf8-to_full_width}

decode_utf8-encode_utf8_example :
    decode_utf8 (encode_utf8 0x4e2d ++ b'x' ∷ []) ≡ some (0x4e2d, b'x' ∷ [])
decode_utf8-encode_utf8_example = decode_utf8-encode_utf8 0x4e2d (b'x' ∷ []) (omega arith)

decode_utf8-to_full_width_example : decode_utf8 (to_full_width b'A') ≡ some (0xff21, [])
decode_utf8-to_full_width_example = decode_utf8-to_full_width b'A' (omega arith) (omega arith)

is_punctuation-chinese_example :
    is_punctuation b'%' ≡ not (is_empty (chinese initial_formatter b'%').0)
is_punctuation-chinese_example = is_punctuation-chinese initial_formatter b'%' (omega arith)

paired_punctuation_closing-chinese_example :
    paired_punctuation_closing (chinese initial_formatter b'(').0
    ≡ (chinese (chinese initial_formatter b'(').1 (closer b'(')).0
unfolding chinese fixed_mark paired_punctuation_closing bytes_eq
paired_punctuation_closing-chinese_example =
    paired_punctuation_closing-chinese initial_formatter b'(' (omega arith) (λ e. cc)

-- A title within a title, and one behind it.
abbrev titles : Titles
titles = title (title done done) (title done done)

write-keys_example :
    (write initial_formatter (keys titles [])).0 ≡ render true titles (write initial_formatter []).0
write-keys_example = (write-keys titles initial_formatter []).0
