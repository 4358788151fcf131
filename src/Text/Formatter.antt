-- ===== src/Text/Formatter.antt =====
-- `PunctuationFormatter`, `is_punctuation`, `should_keep_ascii_punctuation` and
-- `paired_punctuation_closing` of src/TextTransform.cpp and its header.
use msime_linux.Text.Marks
use msime_linux.Base.{
  ℕ, ◌+◌, ◌-◌, Bool, true, false, not, ◌&&◌, ◌||◌, Option, none, some, [], ◌∷◌, ◌==◌, leb,
  if◌then◌else◌, Bytes, bytes_eq,
}

-- The nesting counter is an `int`, here unbounded: the source would need 2 ^ 31 unclosed `<`.
pub record Formatter : Type 0 where
  pub double_quote_open : Bool
  pub single_quote_open : Bool
  pub book_title_nesting : ℕ

abbrev pub initial_formatter : Formatter
initial_formatter = record {
  double_quote_open = true;
  single_quote_open = true;
  book_title_nesting = 0;
}

unfoldable pub reset : Formatter → Formatter
reset f = record f { double_quote_open = true; single_quote_open = true; book_title_nesting = 0 }

-- The cases of the switch that keep no state.
unfoldable pub fixed_mark : ℕ → Bytes
fixed_mark c =
    if c == b'`'
    then Marks.middle_dot
    else if c == b'~'
    then b'~' ∷ []
    else if c == b'!'
    then Marks.exclamation
    else if c == b'@'
    then b'@' ∷ []
    else if c == b'#'
    then b'#' ∷ []
    else if c == b'$'
    then Marks.yuan
    else if c == b'%'
    then b'%' ∷ []
    else if c == b'^'
    then Marks.ellipsis
    else if c == b'&'
    then b'&' ∷ []
    else if c == b'*'
    then b'*' ∷ []
    else if c == b'('
    then Marks.paren_open
    else if c == b')'
    then Marks.paren_close
    else if c == b'_'
    then Marks.long_dash
    else if c == b'['
    then Marks.lenticular_open
    else if c == b']'
    then Marks.lenticular_close
    else if c == b'{'
    then b'{' ∷ []
    else if c == b'}'
    then b'}' ∷ []
    else if c == b'\\'
    then Marks.enumeration_comma
    else if c == b';'
    then Marks.semicolon
    else if c == b':'
    then Marks.colon
    else if c == b','
    then Marks.comma
    else if c == b'.'
    then Marks.full_stop
    else if c == b'?'
    then Marks.question
    else []

-- `case '<'` and `case '>'`.
open_title : Formatter → Bytes × Formatter
open_title f =
    let f' : Formatter = record f { book_title_nesting = f.book_title_nesting + 1 } in
    if f.book_title_nesting == 0 then (Marks.outer_title_open, f') else (Marks.inner_title_open, f')

close_title : Formatter → Bytes × Formatter
close_title f =
    if leb 1 f.book_title_nesting
    then (let n = f.book_title_nesting - 1 in
        (
          if n == 0 then Marks.outer_title_close else Marks.inner_title_close,
          record f { book_title_nesting = n },
        ))
    else (Marks.outer_title_close, f)

unfoldable pub chinese : Formatter → ℕ → Bytes × Formatter
unfolding open_title close_title
chinese f c =
    if c == b'"'
    then (
      if f.double_quote_open then Marks.double_open else Marks.double_close,
      record f { double_quote_open = not f.double_quote_open },
    )
    else if c == b'\''
    then (
      if f.single_quote_open then Marks.single_open else Marks.single_close,
      record f { single_quote_open = not f.single_quote_open },
    )
    else if c == b'<'
    then open_title f
    else if c == b'>'
    then close_title f
    else (fixed_mark c, f)

unfoldable pub is_punctuation : ℕ → Bool
is_punctuation c =
    c == b'"'
    || c == b'\''
    || c == b'`'
    || c == b'~'
    || c == b'!'
    || c == b'@'
    || c == b'#'
    || c == b'$'
    || c == b'%'
    || c == b'^'
    || c == b'&'
    || c == b'*'
    || c == b'('
    || c == b')'
    || c == b'_'
    || c == b'['
    || c == b']'
    || c == b'{'
    || c == b'}'
    || c == b'\\'
    || c == b';'
    || c == b':'
    || c == b','
    || c == b'<'
    || c == b'.'
    || c == b'>'
    || c == b'?'

abbrev between : ℕ → ℕ → ℕ → Bool
between lo hi c = leb lo c && leb c hi

is_alphanumeric : ℕ → Bool
is_alphanumeric c = between b'0' b'9' c || between b'A' b'Z' c || between b'a' b'z' c

abbrev is_smart_mark : ℕ → Bool
is_smart_mark c = c == b',' || c == b'.' || c == b':'

unfoldable pub should_keep_ascii_punctuation : ℕ → Option ℕ → Bool
unfolding is_alphanumeric
should_keep_ascii_punctuation c none = false
should_keep_ascii_punctuation c (some preceding) = is_smart_mark c && is_alphanumeric preceding

unfoldable pub paired_punctuation_closing : Bytes → Bytes
paired_punctuation_closing opening =
    if bytes_eq opening Marks.double_open
    then Marks.double_close
    else if bytes_eq opening Marks.single_open
    then Marks.single_close
    else if bytes_eq opening Marks.lenticular_open
    then Marks.lenticular_close
    else if bytes_eq opening (b'{' ∷ [])
    then b'}' ∷ []
    else if bytes_eq opening Marks.outer_title_open
    then Marks.outer_title_close
    else if bytes_eq opening Marks.inner_title_open
    then Marks.inner_title_close
    else if bytes_eq opening Marks.paren_open
    then Marks.paren_close
    else []
