-- ===== src/Controller/Punctuation.antt =====
-- Committing punctuation and full-width characters (src/InputController.cpp).
use msime_linux.Base.{
  ℕ, ◌+◌, ◌-◌, Bool, true, false, not, ◌&&◌, ◌||◌, Option, none, some, List, [], ◌∷◌, ◌++◌, leb,
  ltb, ◌==◌, if◌then◌else◌, is_empty, Bytes, bytes_eq, last?, drop_last,
}
use msime_linux.Text.Marks
use msime_linux.Text.Formatter
use msime_linux.Text.Formatter.{
  Formatter, is_punctuation, should_keep_ascii_punctuation, paired_punctuation_closing,
}
use msime_linux.Text.Width.{to_full_width}
use msime_linux.Controller.Types.{Result, Engine, no_result, is_chinese, is_full}
use msime_linux.Controller.State.{
  Controller, Step, returned, ◌>>=◌, has_composition, clear_smart_punctuation_history,
  finish_composition,
}

-- `preceding_character`, after the text that the finished composition commits.
unfoldable pub effective_preceding : Option Bytes → Option ℕ → Option ℕ
effective_preceding none preceding = preceding
effective_preceding (some text) preceding = elim (last? text) [
  | none ↦ preceding
  | some last ↦ if leb last 0x7f then some last else none
]

-- `static_cast<char32_t>` of a `char`, which is signed.
abbrev pub to_char32 : ℕ → ℕ
to_char32 c = if ltb c 128 then c else c + 0xffffff00

abbrev pub is_character : Option ℕ → ℕ → Bool
is_character none c = false
is_character (some d) c = d == c

-- Two seconds.
abbrev pub repeat_window : ℕ
repeat_window = 2_000_000_000

abbrev pub single : ℕ → Bytes
single c = c ∷ []

module _ {S W : Type 0} where
  unfoldable pub can_replace_recent_ascii : Controller S W → Bool → ℕ → Option ℕ → ℕ → Bool
  can_replace_recent_ascii c had_composition ascii preceding now =
      is_chinese c.punctuation_mode
      && c.options.smart_punctuation
      && c.options.smart_punctuation_repeat_to_chinese
      && not had_composition
      && c.history_active
      && c.history_key == ascii
      && is_character preceding (to_char32 ascii)
      && leb c.history_time now
      && leb (now - c.history_time) repeat_window

  -- The mark in Chinese mode, with the formatter after it.
  unfoldable pub chinese_punctuation : Controller S W → Bool → ℕ → Option ℕ → Bytes × Formatter
  chinese_punctuation c had_composition ascii preceding =
      if c.options.smart_punctuation && should_keep_ascii_punctuation ascii preceding
      then (single ascii, c.punctuation_formatter)
      else (let (mark, f) = Formatter.chinese c.punctuation_formatter ascii in
          (
            if not had_composition && is_full c.character_width && bytes_eq mark (single ascii)
                then to_full_width ascii
                else mark,
            f,
          ))

  unfoldable pub choose_punctuation : Controller S W → Bool → ℕ → Option ℕ → Bytes × Formatter
  unfolding chinese_punctuation
  choose_punctuation c had_composition ascii preceding =
      if is_chinese c.punctuation_mode && is_punctuation ascii
      then chinese_punctuation c had_composition ascii preceding
      else if not had_composition && is_full c.character_width
      then (to_full_width ascii, c.punctuation_formatter)
      else if had_composition
      then (single ascii, c.punctuation_formatter)
      else ([], c.punctuation_formatter)

  unfoldable pub committed_smart_ascii : Controller S W → Bytes → ℕ → Option ℕ → Bool
  committed_smart_ascii c punctuation ascii preceding =
      is_chinese c.punctuation_mode
      && c.options.smart_punctuation
      && bytes_eq punctuation (single ascii)
      && should_keep_ascii_punctuation ascii preceding

-- A closing quotation mark is turned into the opening one where marks are paired.
unfoldable pub reopen_quote : ℕ → Bytes → Bytes
reopen_quote ascii punctuation =
    if ascii == b'"' && bytes_eq punctuation Marks.double_close
    then Marks.double_open
    else if ascii == b'\'' && bytes_eq punctuation Marks.single_close
    then Marks.single_open
    else punctuation

abbrev pub is_mark : Option Bytes → Bytes → Bool
is_mark none punctuation = false
is_mark (some closing) punctuation = bytes_eq closing punctuation

-- `!pending.empty() && pending.back() == punctuation`.
abbrev pub is_pending : List Bytes → Bytes → Bool
is_pending pending punctuation = is_mark (last? pending) punctuation

-- `result.commit`, with the mark behind it.
abbrev pub append_commit : Option Bytes → Bytes → Option Bytes
append_commit none mark = some mark
append_commit (some text) mark = some (text ++ mark)

module _ {S W : Type 0} where
  -- The end of the function: the mark is committed, and a smart mark is remembered.
  unfoldable pub commit_mark :
      Result → Bytes → Bool → ℕ → ℕ → Controller S W → Result × Controller S W
  unfolding clear_smart_punctuation_history
  commit_mark r mark smart ascii now c = (
    record r { commit = append_commit r.commit mark; handled = true },
    if smart
        then record c { history_active = true; history_key = ascii; history_time = now }
        else clear_smart_punctuation_history c,
  )

  -- Pairing: a mark with a closing mark brings that along, and a mark that is already pending is
  -- stepped over.
  unfoldable pub commit_paired :
      Result → Bytes → Bool → ℕ → ℕ → Controller S W → Result × Controller S W
  commit_paired r mark smart ascii now c =
      let closing = paired_punctuation_closing mark in
      if not (is_empty closing)
      then commit_mark (record r { cursor_left = 1 }) (mark ++ closing) smart ascii now
          (record c { pending_paired_closings = c.pending_paired_closings ++ (closing ∷ []) })
      else if is_pending c.pending_paired_closings mark
      then (
        record r { handled = true; cursor_right = 1 },
        clear_smart_punctuation_history
            (record c { pending_paired_closings = drop_last c.pending_paired_closings }),
      )
      else commit_mark r mark smart ascii now c

  -- From the choice of the mark to the end of `commit_punctuation`.
  unfoldable pub place_punctuation :
      Result → Bool → ℕ → Option ℕ → ℕ → Controller S W → Result × Controller S W
  place_punctuation r had_composition ascii preceding now c =
      let (mark, f) = choose_punctuation c had_composition ascii preceding in
      let c' : Controller S W = record c { punctuation_formatter = f } in
      let smart = committed_smart_ascii c' mark ascii preceding in
      if is_empty mark
      then (r, clear_smart_punctuation_history c')
      else if c.options.paired_punctuation && is_chinese c.punctuation_mode
      then commit_paired r (reopen_quote ascii mark) smart ascii now c'
      else commit_mark r mark smart ascii now c'

  -- The mark typed twice: the first one is taken back and the Chinese mark takes its place.
  unfoldable pub replace_recent :
      Result → Bool → ℕ → Option ℕ → ℕ → Controller S W → Result × Controller S W
  replace_recent r had_composition ascii preceding now c =
      let (mark, f) = Formatter.chinese c.punctuation_formatter ascii in
      let c' : Controller S W = record (clear_smart_punctuation_history c) {
        punctuation_formatter = f;
      } in
      if is_empty mark
      then place_punctuation r had_composition ascii preceding now c'
      else (record no_result { handled = true; commit = some mark; delete_before = 1 }, c')

  unfoldable pub commit_full_width : ℕ → Controller S W → Step S W
  commit_full_width ascii c =
      let converted = to_full_width ascii in
      if not (is_full c.character_width) || is_empty converted
      then returned (no_result, c)
      else returned (record no_result { handled = true; commit = some converted }, c)

module _ {S W Q O : Type 0} (E : Engine S W Q O) where
  -- `now` is the time that `now_()` reads.
  unfoldable pub commit_punctuation : ℕ → ℕ → Option ℕ → Controller S W → Step S W
  unfolding finish_composition effective_preceding can_replace_recent_ascii replace_recent
      place_punctuation
  commit_punctuation now ascii preceding c = do
    (r, c') ← finish_composition E c
    let before = effective_preceding r.commit preceding
    returned (
        if can_replace_recent_ascii c' (has_composition c) ascii before now
        then replace_recent r (has_composition c) ascii before now c'
        else place_punctuation r (has_composition c) ascii before now c')
