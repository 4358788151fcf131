-- ===== src/Text/Marks.antt =====
-- The Chinese punctuation marks that src/TextTransform.cpp writes as string literals, as the bytes
-- of their UTF-8 text, and a check of those bytes against `encode_utf8`.
use msime_linux.Base.{ℕ, [], ◌∷◌, ◌++◌, ◌≡◌, refl, Bytes, List}
use msime_linux.Text.Utf8.{encode_utf8}

abbrev pub double_open : Bytes
double_open = 0xe2 ∷ 0x80 ∷ 0x9c ∷ []

abbrev pub double_close : Bytes
double_close = 0xe2 ∷ 0x80 ∷ 0x9d ∷ []

abbrev pub single_open : Bytes
single_open = 0xe2 ∷ 0x80 ∷ 0x98 ∷ []

abbrev pub single_close : Bytes
single_close = 0xe2 ∷ 0x80 ∷ 0x99 ∷ []

abbrev pub middle_dot : Bytes
middle_dot = 0xc2 ∷ 0xb7 ∷ []

abbrev pub exclamation : Bytes
exclamation = 0xef ∷ 0xbc ∷ 0x81 ∷ []

abbrev pub yuan : Bytes
yuan = 0xef ∷ 0xbf ∷ 0xa5 ∷ []

abbrev pub ellipsis : Bytes
ellipsis = 0xe2 ∷ 0x80 ∷ 0xa6 ∷ 0xe2 ∷ 0x80 ∷ 0xa6 ∷ []

abbrev pub paren_open : Bytes
paren_open = 0xef ∷ 0xbc ∷ 0x88 ∷ []

abbrev pub paren_close : Bytes
paren_close = 0xef ∷ 0xbc ∷ 0x89 ∷ []

abbrev pub long_dash : Bytes
long_dash = 0xe2 ∷ 0x80 ∷ 0x94 ∷ 0xe2 ∷ 0x80 ∷ 0x94 ∷ []

abbrev pub lenticular_open : Bytes
lenticular_open = 0xe3 ∷ 0x80 ∷ 0x90 ∷ []

abbrev pub lenticular_close : Bytes
lenticular_close = 0xe3 ∷ 0x80 ∷ 0x91 ∷ []

abbrev pub enumeration_comma : Bytes
enumeration_comma = 0xe3 ∷ 0x80 ∷ 0x81 ∷ []

abbrev pub semicolon : Bytes
semicolon = 0xef ∷ 0xbc ∷ 0x9b ∷ []

abbrev pub colon : Bytes
colon = 0xef ∷ 0xbc ∷ 0x9a ∷ []

abbrev pub comma : Bytes
comma = 0xef ∷ 0xbc ∷ 0x8c ∷ []

abbrev pub outer_title_open : Bytes
outer_title_open = 0xe3 ∷ 0x80 ∷ 0x8a ∷ []

abbrev pub inner_title_open : Bytes
inner_title_open = 0xe3 ∷ 0x80 ∷ 0x88 ∷ []

abbrev pub full_stop : Bytes
full_stop = 0xe3 ∷ 0x80 ∷ 0x82 ∷ []

abbrev pub outer_title_close : Bytes
outer_title_close = 0xe3 ∷ 0x80 ∷ 0x8b ∷ []

abbrev pub inner_title_close : Bytes
inner_title_close = 0xe3 ∷ 0x80 ∷ 0x89 ∷ []

abbrev pub question : Bytes
question = 0xef ∷ 0xbc ∷ 0x9f ∷ []

abbrev encode_all : List ℕ → Bytes
encode_all [] = []
encode_all (c ∷ cs) = encode_utf8 c ++ encode_all cs

marks_are_utf8 :
    encode_all (
      0x201c ∷ 0x201d ∷ 0x2018 ∷ 0x2019 ∷ 0xb7 ∷ 0xff01 ∷ 0xffe5 ∷ 0x2026 ∷ 0x2026 ∷ 0xff08 ∷ 0xff09
      ∷ 0x2014 ∷ 0x2014 ∷ 0x3010 ∷ 0x3011 ∷ 0x3001 ∷ 0xff1b ∷ 0xff1a ∷ 0xff0c ∷ 0x300a ∷ 0x3008
      ∷ 0x3002 ∷ 0x300b ∷ 0x3009 ∷ 0xff1f ∷ [])
    ≡ double_open ++ double_close ++ single_open ++ single_close ++ middle_dot ++ exclamation
      ++ yuan ++ ellipsis ++ paren_open ++ paren_close ++ long_dash ++ lenticular_open
      ++ lenticular_close ++ enumeration_comma ++ semicolon ++ colon ++ comma ++ outer_title_open
      ++ inner_title_open ++ full_stop ++ outer_title_close ++ inner_title_close ++ question
unfolding encode_utf8
marks_are_utf8 = refl
