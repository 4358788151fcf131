-- ===== src/Controller/Keys.antt =====
-- `InputController::handle_key` (src/InputController.cpp), one function for each case of its switch.
use msime_linux.Base.{
  ℕ, ◌+◌, ◌-◌, ◌%◌, Bool, true, false, not, ◌&&◌, ◌||◌, Option, none, some, [], ◌∷◌, List, leb, ltb,
  ◌==◌, if◌then◌else◌, length,
}
use msime_linux.Controller.Types.{
  FrontendKey, Event, Engine, KeyResult, no_result, handled_result, InputMode, same_mode,
  is_inactive, is_unicode, is_temporary,
}
use msime_linux.Controller.State.{
  Controller, Step, returned, ◌>>=◌, add_size, has_composition, page_start,
  clear_smart_punctuation_history, finish_composition, finish_composition_mutation, conclude,
  invalidate_context, of_key_result,
}
use msime_linux.Controller.Candidates.{
  select_candidate, select_page_candidate, commit_highlighted, move_cursor, move_page,
}
use msime_linux.Controller.Modes.{
  toggle_punctuation_mode, toggle_character_width, toggle_dedicated_english_mode,
}
use msime_linux.Controller.Punctuation.{commit_punctuation, commit_full_width}

find_symbol : ℕ → ℕ → List ℕ → ℕ
find_symbol c position [] = 0
find_symbol c position (s ∷ symbols) =
    if s == c then position else find_symbol c (position + 1) symbols

-- The digit whose shifted key is `c` on the row "!@#$%^&*(", or 0.
unfoldable pub shifted_digit_symbol : ℕ → ℕ
unfolding find_symbol
shifted_digit_symbol c =
    find_symbol c 1 (b'!' ∷ b'@' ∷ b'#' ∷ b'$' ∷ b'%' ∷ b'^' ∷ b'&' ∷ b'*' ∷ b'(' ∷ [])

unfoldable pub is_bracket : ℕ → Bool
is_bracket c = c == b'[' || c == b']'

-- The paging keys that local modes and the plain composition share: the direction of the page.
unfoldable pub paging_direction : Bool → ℕ → Option Bool
paging_direction comma_period c =
    if c == b'-' || c == b'_'
    then some false
    else if c == b'=' || c == b'+'
    then some true
    else if comma_period && (c == b',' || c == b'.')
    then some (c == b'.')
    else none

-- The key that leafs through the candidates, brackets first.
unfoldable pub page_key : Bool → Bool → ℕ → Option Bool
unfolding is_bracket paging_direction
page_key bracket comma_period c =
    if bracket && is_bracket c then some (c == b']') else paging_direction comma_period c

abbrev pub is_punctuation_key : FrontendKey → Bool
is_punctuation_key FrontendKey.punctuation = true
is_punctuation_key _ = false

module _ {S W : Type 0} where
  -- The history of a smart mark survives only the same mark once more.
  unfoldable pub forget_other_keys : Event → Controller S W → Controller S W
  forget_other_keys e c =
      if not (is_punctuation_key e.key) || not (e.character == c.history_key)
      then clear_smart_punctuation_history c
      else c

module _ {S W Q O : Type 0} (E : Engine S W Q O) where
  -- The second switch: what every mode does with a key that the composition did not take.
  unfoldable pub handle_tail_key : FrontendKey → ℕ → Event → Controller S W → Step S W
  handle_tail_key FrontendKey.character now e c = commit_full_width e.character c
  handle_tail_key FrontendKey.punctuation now e c =
      commit_punctuation E now e.character e.preceding_character c
  handle_tail_key FrontendKey.space now e c = commit_full_width b' ' c
  handle_tail_key FrontendKey.digit now e c =
      if leb e.digit 9 then commit_full_width (b'0' + e.digit) c else returned (no_result, c)
  handle_tail_key _ now e c = returned (no_result, c)

  unfoldable pub handle_character : ℕ → Event → Controller S W → Step S W
  handle_character now e c =
      let (r, s) = E.type_character c.session e.character e.shift_only in
      let c' : Controller S W = record c { session = s } in
      if r.handled || has_composition c
      then finish_composition_mutation E (of_key_result r) c'
      else handle_tail_key FrontendKey.character now e c'

  -- A mark that a local mode may take as input.
  unfoldable pub type_mark : ℕ → Event → Controller S W → Step S W
  type_mark now e c =
      let (r, s) = E.type_character c.session e.character e.shift_only in
      let c' : Controller S W = record c { session = s } in
      if r.handled
      then finish_composition_mutation E (of_key_result r) c'
      else commit_punctuation E now e.character e.preceding_character c'

  -- Paging by a key, if the key is one that pages, and otherwise what follows.
  unfoldable pub page_or : Option Bool → Controller S W → Step S W → Step S W
  page_or none c rest = rest
  page_or (some forward) c rest = move_page forward c

  unfoldable pub handle_local_punctuation : ℕ → Event → Controller S W → Step S W
  handle_local_punctuation now e c =
      let selection = shifted_digit_symbol e.character in
      if e.shift_only && not (selection == 0)
      then select_page_candidate E (selection - 1) c
      else if is_temporary c.snapshot.local_mode && has_composition c
      then page_or (page_key c.options.bracket_paging c.options.comma_period_paging e.character) c
          (type_mark now e c)
      else type_mark now e c

  -- `select_edge`: the first or the last character of the highlighted candidate.
  unfoldable pub select_edge : ℕ → Controller S W → KeyResult × S
  select_edge character c =
      if character == b'['
      then E.select_first_han c.session c.highlighted_candidate
      else E.select_last_han c.session c.highlighted_candidate

  -- What follows the brackets in a composition.
  unfoldable pub page_or_commit : ℕ → Event → Controller S W → Step S W
  page_or_commit now e c =
      page_or (paging_direction c.options.comma_period_paging e.character) c
        (commit_punctuation E now e.character e.preceding_character c)

  unfoldable pub handle_composing_punctuation : ℕ → Event → Controller S W → Step S W
  handle_composing_punctuation now e c =
      if c.options.bracket_paging && is_bracket e.character
      then move_page (e.character == b']') c
      else if c.options.word_to_character && is_bracket e.character
      then (let (r, s) = select_edge e.character c in
          let c' : Controller S W = record c { session = s } in
          if r.handled
          then finish_composition_mutation E (of_key_result r) c'
          else page_or_commit now e c')
      else page_or_commit now e c

  unfoldable pub handle_punctuation : ℕ → Event → Controller S W → Step S W
  handle_punctuation now e c =
      if not (is_inactive c.snapshot.local_mode)
      then handle_local_punctuation now e c
      else if e.character == b'\'' && has_composition c
      then conclude E c (E.type_plain c.session e.character)
      else if has_composition c
      then handle_composing_punctuation now e c
      else commit_punctuation E now e.character e.preceding_character c

  -- A digit on the candidates of the page.
  unfoldable pub select_digit : ℕ → Controller S W → Step S W
  select_digit digit c =
      let index = add_size (page_start c) (digit - 1) in
      if ltb digit 1 || ltb 9 digit
      then returned (no_result, c)
      else if ltb c.options.page_size digit
      then returned (handled_result, c)
      else if ltb index (length c.snapshot.candidates)
      then select_candidate E index c
      else returned (handled_result, c)

  unfoldable pub handle_digit : ℕ → Event → Controller S W → Step S W
  handle_digit now e c =
      if is_unicode c.snapshot.local_mode && not e.shift_only
      then conclude E c (E.type_plain c.session ((b'0' + e.digit) % 256))
      else if not (has_composition c)
      then handle_tail_key FrontendKey.digit now e c
      else select_digit e.digit c

  -- The first switch, for the IME mode.
  unfoldable pub handle_ime_key : FrontendKey → ℕ → Event → Controller S W → Step S W
  handle_ime_key FrontendKey.character now e c = handle_character now e c
  handle_ime_key FrontendKey.punctuation now e c = handle_punctuation now e c
  handle_ime_key FrontendKey.backspace now e c = conclude E c (E.backspace c.session)
  handle_ime_key FrontendKey.enter now e c = conclude E c (E.commit_raw c.session)
  handle_ime_key FrontendKey.escape now e c = conclude E c (E.cancel c.session)
  handle_ime_key FrontendKey.space now e c =
      if has_composition c
      then commit_highlighted E c
      else handle_tail_key FrontendKey.space now e c
  handle_ime_key FrontendKey.digit now e c = handle_digit now e c
  handle_ime_key FrontendKey.up now e c = move_cursor false c
  handle_ime_key FrontendKey.down now e c = move_cursor true c
  handle_ime_key FrontendKey.page_up now e c = move_page false c
  handle_ime_key FrontendKey.page_down now e c = move_page true c
  handle_ime_key FrontendKey.toggle_punctuation now e c =
      handle_tail_key FrontendKey.toggle_punctuation now e c
  handle_ime_key FrontendKey.toggle_width now e c = handle_tail_key FrontendKey.toggle_width now e c
  handle_ime_key FrontendKey.toggle_english now e c =
      handle_tail_key FrontendKey.toggle_english now e c

  -- A key that belongs to the host: the composition is finished and the key is left to the host.
  unfoldable pub handle_host_shortcut : Controller S W → Step S W
  handle_host_shortcut c = do
    (r, c1) ← finish_composition E c
    c2 ← invalidate_context c1
    returned (record r { handled = false }, c2)

  -- The keys that are answered before the modes.
  unfoldable pub dispatch_key : FrontendKey → ℕ → Event → Controller S W → Step S W
  dispatch_key FrontendKey.toggle_punctuation now e c = toggle_punctuation_mode c
  dispatch_key FrontendKey.toggle_width now e c = toggle_character_width c
  dispatch_key FrontendKey.toggle_english now e c = toggle_dedicated_english_mode E c
  dispatch_key k now e c =
      if same_mode c.mode InputMode.ime then handle_ime_key k now e c else handle_tail_key k now e c

  unfoldable pub handle_key : ℕ → Event → Controller S W → Step S W
  handle_key now e c =
      let c' : Controller S W = forget_other_keys e c in
      if e.host_shortcut then handle_host_shortcut c' else dispatch_key e.key now e c'
