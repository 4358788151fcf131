-- ===== src/Controller/Modes.antt =====
-- Changing the mode, the punctuation, the width and the scheme (src/InputController.cpp).
use msime_linux.Base.{true, false, not, ◌&&◌, if◌then◌else◌}
use msime_linux.Controller.Types.{
  InputMode, PunctuationMode, PunctuationLock, follow, CharacterWidth, Scheme, quanpin, shuangpin,
  Result, Engine, no_result, handled_result, same_mode, same_punctuation, same_width, is_chinese,
  is_full, same_scheme, is_inactive,
}
use msime_linux.Controller.State.{
  Controller, Outcome, Step, returned, ◌>>=◌, renew, refresh, clear_smart_punctuation_history,
  reset_highlight, finish_composition, conclude, invalidate_context,
}

-- The punctuation that the lock asks for in a mode.
unfoldable pub locked_punctuation : PunctuationLock → InputMode → PunctuationMode
locked_punctuation PunctuationLock.chinese m = PunctuationMode.chinese
locked_punctuation PunctuationLock.english m = PunctuationMode.english
locked_punctuation follow InputMode.ime = PunctuationMode.chinese
locked_punctuation follow InputMode.direct = PunctuationMode.english

module _ {S W : Type 0} where
  unfoldable pub set_punctuation_mode : PunctuationMode → Controller S W → Step S W
  unfolding clear_smart_punctuation_history renew
  set_punctuation_mode m c =
      let c' : Controller S W = clear_smart_punctuation_history c in
      if same_punctuation c.punctuation_mode m
      then returned (no_result, c')
      else (do c'' ← renew (record c' { punctuation_mode = m }); returned (handled_result, c''))

  unfoldable pub toggle_punctuation_mode : Controller S W → Step S W
  unfolding set_punctuation_mode
  toggle_punctuation_mode c =
      set_punctuation_mode
        (if is_chinese c.punctuation_mode then PunctuationMode.english else PunctuationMode.chinese)
        c

  unfoldable pub apply_punctuation_lock : Controller S W → Outcome S W (Controller S W)
  unfolding set_punctuation_mode locked_punctuation
  apply_punctuation_lock c = do
    (ignored, c') ← set_punctuation_mode (locked_punctuation c.punctuation_lock c.mode) c
    returned c'

  unfoldable pub set_punctuation_lock :
      PunctuationLock → Controller S W → Outcome S W (Controller S W)
  unfolding apply_punctuation_lock
  set_punctuation_lock l c = apply_punctuation_lock (record c { punctuation_lock = l })

  unfoldable pub set_character_width : CharacterWidth → Controller S W → Step S W
  unfolding clear_smart_punctuation_history renew
  set_character_width w c =
      let c' : Controller S W = clear_smart_punctuation_history c in
      if same_width c.character_width w
      then returned (no_result, c')
      else (do c'' ← renew (record c' { character_width = w }); returned (handled_result, c''))

  unfoldable pub toggle_character_width : Controller S W → Step S W
  unfolding set_character_width
  toggle_character_width c =
      set_character_width
        (if is_full c.character_width then CharacterWidth.half else CharacterWidth.full) c

-- `result.handled = true`.
abbrev handle : Result → Result
handle r = record r { handled = true }

module _ {S W Q O : Type 0} (E : Engine S W Q O) where
  -- `finish_composition` is called on the way out of the IME mode only.
  unfoldable pub finish_if_direct : InputMode → Controller S W → Step S W
  unfolding finish_composition
  finish_if_direct InputMode.ime c = returned (no_result, c)
  finish_if_direct InputMode.direct c = finish_composition E c

  -- From `set_dedicated_english` to the end of `set_mode`.
  unfoldable pub enter_mode : InputMode → Controller S W → Outcome S W (Controller S W)
  unfolding refresh apply_punctuation_lock reset_highlight renew
  enter_mode m c = do
    c' ← apply_punctuation_lock (record c {
      session = E.set_dedicated_english c.session false;
      snapshot = E.snapshot (E.set_dedicated_english c.session false);
      mode = m;
    })
    renew (reset_highlight c')

  unfoldable pub set_mode : InputMode → Controller S W → Step S W
  unfolding clear_smart_punctuation_history finish_if_direct enter_mode
  set_mode m c =
      let c0 : Controller S W = clear_smart_punctuation_history c in
      if same_mode c.mode m
      then returned (no_result, c0)
      else (do (r, c1) ← finish_if_direct m c0; c2 ← enter_mode m c1; returned (handle r, c2))

  unfoldable pub toggle_mode : Controller S W → Step S W
  toggle_mode c =
      set_mode (if same_mode c.mode InputMode.ime then InputMode.direct else InputMode.ime) c

  unfoldable pub switch_english : Controller S W → Outcome S W (Controller S W)
  unfolding refresh reset_highlight renew
  switch_english c = renew (
      reset_highlight (
        refresh E (record c {
          session = E.set_dedicated_english c.session (not c.snapshot.dedicated_english);
        })))

  unfoldable pub toggle_dedicated_english_mode : Controller S W → Step S W
  unfolding clear_smart_punctuation_history finish_composition switch_english
  toggle_dedicated_english_mode c =
      let c0 : Controller S W = clear_smart_punctuation_history c in
      if not (same_mode c.mode InputMode.ime)
      then returned (handled_result, c0)
      else (do (r, c1) ← finish_composition E c0; c2 ← switch_english c1; returned (handle r, c2))

  unfoldable pub with_helpcode : Scheme → Controller S W → Controller S W
  with_helpcode quanpin c = record c {
    session =
        E.set_helpcode_schema (E.set_helpcode_enabled c.session c.options.quanpin_helpcode_enabled)
          c.options.quanpin_helpcode_schema;
  }
  with_helpcode shuangpin c = record c {
    session =
        E.set_helpcode_schema
          (E.set_helpcode_enabled c.session c.options.shuangpin_helpcode_enabled)
          c.options.shuangpin_helpcode_schema;
  }
  with_helpcode (Scheme.other n) c = c

  unfoldable pub select_active_helpcode_schema : Controller S W → Controller S W
  unfolding refresh with_helpcode
  select_active_helpcode_schema c = refresh E (with_helpcode c.snapshot.scheme c)

  unfoldable pub enter_scheme : Scheme → Controller S W → Outcome S W (Controller S W)
  unfolding refresh reset_highlight renew select_active_helpcode_schema
  enter_scheme s c = renew (
      reset_highlight (
        select_active_helpcode_schema (
          refresh E
            (record c { session = E.switch_scheme (E.set_dedicated_english c.session false) s }))))

  unfoldable pub switch_scheme : Scheme → Controller S W → Step S W
  unfolding clear_smart_punctuation_history finish_composition enter_scheme
  switch_scheme s c =
      let c0 : Controller S W = clear_smart_punctuation_history c in
      if same_scheme c.snapshot.scheme s && is_inactive c.snapshot.local_mode
      then returned (no_result, c0)
      else (do (r, c1) ← finish_composition E c0; c2 ← enter_scheme s c1; returned (handle r, c2))

  unfoldable pub reset : Controller S W → Outcome S W (Controller S W)
  unfolding conclude invalidate_context
  reset c = do (ignored, c') ← conclude E c (E.cancel c.session); invalidate_context c'
