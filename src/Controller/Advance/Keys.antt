-- ===== src/Controller/Advance/Keys.antt =====
-- Every key advances the controller.
use msime_linux.Base.{
  ℕ, ◌+◌, ◌-◌, ◌%◌, ◌≤◌, inl, inr, true, false, arith, Bool-cases, if◌then◌else◌, not, ◌||◌, ◌&&◌,
  ltb, ◌==◌, length,
}
use msime_linux.Controller.Types.{Engine, Event, FrontendKey, InputMode, same_mode, is_unicode}
use msime_linux.Controller.State.{
  Controller, Step, returned, thrown, has_composition, page_start, add_size, finish_composition,
  invalidate_context,
}
use msime_linux.Controller.Modes.{toggle_punctuation_mode, toggle_character_width}
use msime_linux.Controller.Keys.{
  handle_tail_key, select_digit, handle_digit, handle_ime_key, handle_host_shortcut, dispatch_key,
  is_punctuation_key, forget_other_keys, handle_key,
}
use msime_linux.Controller.Advance.Relation.{
  Returns, bind-Returns, branch, IsQuiet, Inv, Room, Progress, Advances-refl, Advances-weaken,
  Advances-draw, Draws, Draws-Advances, finish_composition-Advances, conclude-Advances,
  invalidate_context-Draws,
}
use msime_linux.Controller.Advance.Candidates.{
  select_candidate-Progress, commit_highlighted-Progress, move_cursor-Progress, move_page-Progress,
}
use msime_linux.Controller.Advance.Modes.{
  set_punctuation_mode-Draws, set_character_width-Draws, toggle_dedicated_english_mode-Progress,
  clear-Inv, clear-Room, cleared,
}
use msime_linux.Controller.Advance.Marks.{
  handle_tail_key-Progress, handle_character-Progress, handle_punctuation-Progress,
}

module _ {S W Q O : Type 0} (E : Engine S W Q O) (quiet : IsQuiet E) where
  select_digit-Progress :
      (digit : ℕ) (c : Controller S W)
      → Inv E c
      → Room E 1 c
      → Returns (Progress E 1 c) (select_digit E digit c)
  unfolding select_digit
  select_digit-Progress digit c v room =
      let index = add_size (page_start c) (digit - 1) in
      let still = Advances-refl E 1 c v in
      elim (Bool-cases (ltb digit 1 || ltb 9 digit)) [
        | inl h ↦ rw h still
        | inr h ↦ elim (Bool-cases (ltb c.options.page_size digit)) [
          | inl k ↦ rw (h, k) still
          | inr k ↦ elim (Bool-cases (ltb index (length c.snapshot.candidates))) [
            | inl l ↦ rw (h, k, l) (select_candidate-Progress E quiet index c v room)
            | inr l ↦ rw (h, k, l) still
          ]
        ]
      ]

  handle_digit-Progress :
      (now : ℕ) (e : Event) (c : Controller S W)
      → Inv E c
      → Room E 1 c
      → Returns (Progress E 1 c) (handle_digit E now e c)
  unfolding handle_digit
  handle_digit-Progress now e c v room =
      elim (Bool-cases (is_unicode c.snapshot.local_mode && not e.shift_only)) [
        | inl h ↦ rw h (
            conclude-Advances E c (E.type_plain c.session ((b'0' + e.digit) % 256)) v room
              (quiet.type_plain c.session ((b'0' + e.digit) % 256)))
        | inr h ↦ elim (Bool-cases (has_composition c)) [
          | inl k ↦ rw (h, k) (select_digit-Progress e.digit c v room)
          | inr k ↦ rw (h, k) (handle_tail_key-Progress E quiet FrontendKey.digit now e c v room)
        ]
      ]

  handle_ime_key-Progress :
      (k : FrontendKey) (now : ℕ) (e : Event) (c : Controller S W)
      → Inv E c
      → Room E 1 c
      → Returns (Progress E 1 c) (handle_ime_key E k now e c)
  unfolding handle_ime_key
  handle_ime_key-Progress FrontendKey.character now e c v room =
      handle_character-Progress E quiet now e c v room
  handle_ime_key-Progress FrontendKey.punctuation now e c v room =
      handle_punctuation-Progress E quiet now e c v room
  handle_ime_key-Progress FrontendKey.backspace now e c v room =
      conclude-Advances E c (E.backspace c.session) v room (quiet.backspace c.session)
  handle_ime_key-Progress FrontendKey.enter now e c v room =
      conclude-Advances E c (E.commit_raw c.session) v room (quiet.commit_raw c.session)
  handle_ime_key-Progress FrontendKey.escape now e c v room =
      conclude-Advances E c (E.cancel c.session) v room (quiet.cancel c.session)
  handle_ime_key-Progress FrontendKey.space now e c v room =
      branch (Progress E 1 c) (has_composition c) _ _
        (λ h. commit_highlighted-Progress E quiet c v room)
        (λ h. handle_tail_key-Progress E quiet FrontendKey.space now e c v room)
  handle_ime_key-Progress FrontendKey.digit now e c v room = handle_digit-Progress now e c v room
  handle_ime_key-Progress FrontendKey.up now e c v room = move_cursor-Progress E false c v
  handle_ime_key-Progress FrontendKey.down now e c v room = move_cursor-Progress E true c v
  handle_ime_key-Progress FrontendKey.page_up now e c v room = move_page-Progress E false c v
  handle_ime_key-Progress FrontendKey.page_down now e c v room = move_page-Progress E true c v
  handle_ime_key-Progress FrontendKey.toggle_punctuation now e c v room =
      handle_tail_key-Progress E quiet FrontendKey.toggle_punctuation now e c v room
  handle_ime_key-Progress FrontendKey.toggle_width now e c v room =
      handle_tail_key-Progress E quiet FrontendKey.toggle_width now e c v room
  handle_ime_key-Progress FrontendKey.toggle_english now e c v room =
      handle_tail_key-Progress E quiet FrontendKey.toggle_english now e c v room

  handle_host_shortcut-Progress :
      (c : Controller S W)
      → Inv E c
      → Room E 2 c
      → Returns (Progress E 2 c) (handle_host_shortcut E c)
  unfolding handle_host_shortcut
  handle_host_shortcut-Progress c v room =
      bind-Returns (Progress E 1 c) (Progress E 2 c) (finish_composition E c) _
        (finish_composition-Advances E quiet c v (omega arith))
        λ q p.
          bind-Returns (Draws 1 q.1) (Progress E 2 c) (invalidate_context q.1) _
            (invalidate_context-Draws E q.1 (omega (arith, p.upper)))
            λ d drawn. Advances-draw E 1 1 c q.1 d p drawn

  -- What was proved with fewer numbers drawn.
  weaker :
      (j k : ℕ) (c : Controller S W) (m : Step S W)
      → j ≤ k
      → Returns (Progress E j c) m
      → Returns (Progress E k c) m
  weaker j k c (returned q) l p = Advances-weaken E j k c q.1 l p
  weaker j k c (thrown d) l p = p

  by_mode :
      (k : FrontendKey) (now : ℕ) (e : Event) (c : Controller S W)
      → Inv E c
      → Room E 2 c
      → Returns (Progress E 2 c) (
          if same_mode c.mode InputMode.ime
          then handle_ime_key E k now e c
          else handle_tail_key E k now e c)
  by_mode k now e c v room =
      branch (Progress E 2 c) (same_mode c.mode InputMode.ime) _ _
        (λ h. weaker 1 2 c _ (omega arith) (handle_ime_key-Progress k now e c v (omega arith)))
        (λ h.
          weaker 1 2 c _ (omega arith) (handle_tail_key-Progress E quiet k now e c v (omega arith)))

  drawn :
      (c : Controller S W) (m : Step S W)
      → Inv E c
      → Returns (λ q. Draws 1 c q.1) m
      → Returns (Progress E 2 c) m
  drawn c (returned q) v p =
      Advances-weaken E 1 2 c q.1 (omega arith) (Draws-Advances E 1 c q.1 v p)
  drawn c (thrown d) v p = p

  dispatch_key-Progress :
      (k : FrontendKey) (now : ℕ) (e : Event) (c : Controller S W)
      → Inv E c
      → Room E 2 c
      → Returns (Progress E 2 c) (dispatch_key E k now e c)
  unfolding dispatch_key toggle_punctuation_mode toggle_character_width
  dispatch_key-Progress FrontendKey.toggle_punctuation now e c v room =
      drawn c _ v (set_punctuation_mode-Draws E _ c (omega arith))
  dispatch_key-Progress FrontendKey.toggle_width now e c v room =
      drawn c _ v (set_character_width-Draws E _ c (omega arith))
  dispatch_key-Progress FrontendKey.toggle_english now e c v room =
      toggle_dedicated_english_mode-Progress E quiet c v room
  dispatch_key-Progress FrontendKey.character now e c v room = by_mode _ now e c v room
  dispatch_key-Progress FrontendKey.punctuation now e c v room = by_mode _ now e c v room
  dispatch_key-Progress FrontendKey.backspace now e c v room = by_mode _ now e c v room
  dispatch_key-Progress FrontendKey.enter now e c v room = by_mode _ now e c v room
  dispatch_key-Progress FrontendKey.escape now e c v room = by_mode _ now e c v room
  dispatch_key-Progress FrontendKey.space now e c v room = by_mode _ now e c v room
  dispatch_key-Progress FrontendKey.digit now e c v room = by_mode _ now e c v room
  dispatch_key-Progress FrontendKey.up now e c v room = by_mode _ now e c v room
  dispatch_key-Progress FrontendKey.down now e c v room = by_mode _ now e c v room
  dispatch_key-Progress FrontendKey.page_up now e c v room = by_mode _ now e c v room
  dispatch_key-Progress FrontendKey.page_down now e c v room = by_mode _ now e c v room

  shortcut_or_key :
      (now : ℕ) (e : Event) (c : Controller S W)
      → Inv E c
      → Room E 2 c
      → Returns
          (Progress E 2 c)
          (if e.host_shortcut then handle_host_shortcut E c else dispatch_key E e.key now e c)
  shortcut_or_key now e c v room =
      branch (Progress E 2 c) e.host_shortcut _ _ (λ h. handle_host_shortcut-Progress c v room)
        (λ h. dispatch_key-Progress e.key now e c v room)

  -- Over a session library that leaves the composition alone whenever it reports a call as not
  -- handled, and in every state that keeps the invariant and has two numbers of the sequence left,
  -- `handle_key` returns, on every event and at every time. It draws at most two numbers and keeps
  -- the invariant: the snapshot is the session's, the generation was drawn, and the highlight stands
  -- on a candidate whenever there is one. If the generation is as before, so is the snapshot, and
  -- otherwise the generation is one that had never been drawn.
  pub handle_key-Progress :
      (now : ℕ) (e : Event) (c : Controller S W)
      → Inv E c
      → Room E 2 c
      → Returns (Progress E 2 c) (handle_key E now e c)
  unfolding handle_key forget_other_keys
  handle_key-Progress now e c v room =
      elim (Bool-cases (not (is_punctuation_key e.key) || not (e.character == c.history_key))) [
        | inl h ↦
            rw h (
              cleared E 2 c _ v (shortcut_or_key now e _ (clear-Inv E c v) (clear-Room E 2 c room)))
        | inr h ↦ rw h (shortcut_or_key now e c v room)
      ]
