-- ===== src/Text/Nesting.antt =====
-- Nested book titles: the formatter keeps the depth, and writes outer and inner marks by it.
use msime_linux.Base.{
  ◌+◌, ◌≡◌, refl, Bool, false, [], ◌∷◌, ◌++◌, arith, ◌==◌, if◌then◌else◌, Bytes, ap,
}
use msime_linux.Text.Marks
use msime_linux.Text.Formatter.{Formatter, chinese}

-- The keys are typed one by one.
unfoldable pub write : Formatter → Bytes → Bytes × Formatter
write f [] = ([], f)
write f (c ∷ cs) =
    let (mark, f') = chinese f c in let (marks, g) = write f' cs in (mark ++ marks, g)

-- A text of nested titles: a title with what stands inside it, and what follows.
pub data Titles : Type 0 where
  done : Titles
  title : Titles → Titles → Titles

abbrev pub keys : Titles → Bytes → Bytes
keys done rest = rest
keys (title inside after) rest = b'<' ∷ keys inside (b'>' ∷ keys after rest)

-- What a reader expects: outer marks at the top, inner marks at every depth below.
abbrev pub render : Bool → Titles → Bytes → Bytes
render outer done rest = rest
render outer (title inside after) rest =
    (if outer then Marks.outer_title_open else Marks.inner_title_open)
    ++ render false inside (
        (if outer then Marks.outer_title_close else Marks.inner_title_close)
        ++ render outer after rest)

abbrev deeper : Formatter → Formatter
deeper f = record f { book_title_nesting = f.book_title_nesting + 1 }

write_open :
    (f : Formatter) (rest : Bytes)
    → write f (b'<' ∷ rest) ≡ (
      (if f.book_title_nesting == 0 then Marks.outer_title_open else Marks.inner_title_open)
          ++ (write (deeper f) rest).0,
      (write (deeper f) rest).1,
    )
unfolding write chinese
write_open f rest = ground arith

write_close :
    (f : Formatter) (rest : Bytes)
    → write (deeper f) (b'>' ∷ rest) ≡ (
      (if f.book_title_nesting == 0 then Marks.outer_title_close else Marks.inner_title_close)
          ++ (write f rest).0,
      (write f rest).1,
    )
unfolding write chinese
write_close f rest = ground arith

deeper_is_inner : (f : Formatter) → ((deeper f).book_title_nesting == 0) ≡ false
deeper_is_inner f = ground arith

write-keys_pair :
    (t : Titles) (f : Formatter) (rest : Bytes)
    → write f (keys t rest)
      ≡ (render (f.book_title_nesting == 0) t (write f rest).0, (write f rest).1)
write-keys_pair done f rest = refl
write-keys_pair (title inside after) f rest = rw (
  write_open f (keys inside (b'>' ∷ keys after rest)),
  write-keys_pair inside (deeper f) (b'>' ∷ keys after rest),
  deeper_is_inner f,
  write_close f (keys after rest),
  write-keys_pair after f rest,
)

-- Typing nested titles in front of any further keys writes outer marks exactly at the outermost
-- level at which the formatter is not already inside a title, and inner marks at every depth
-- below; the formatter is then as it was, so the further keys are written as if they stood alone.
pub write-keys :
    (t : Titles) (f : Formatter) (rest : Bytes)
    → ((write f (keys t rest)).0 ≡ render (f.book_title_nesting == 0) t (write f rest).0)
      × ((write f (keys t rest)).1 ≡ (write f rest).1)
write-keys t f rest =
    (ap (λ p. p.0) (write-keys_pair t f rest), ap (λ p. p.1) (write-keys_pair t f rest))
