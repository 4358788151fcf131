-- ===== src/Controller/Advance/Modes.antt =====
-- The mode operations draw fresh generations.
use msime_linux.Base.{ℕ, ◌+◌, ◌≡◌, refl, inl, inr, false, arith, Bool-cases, not, ◌&&◌}
use msime_linux.Controller.Types.{
  Engine, InputMode, PunctuationMode, CharacterWidth, Scheme, quanpin, shuangpin, same_mode,
  same_scheme, is_inactive,
}
use msime_linux.Controller.State.{
  Controller, Outcome, Step, returned, thrown, refresh, invalidate_context,
  clear_smart_punctuation_history,
}
use msime_linux.Controller.Modes.{
  set_punctuation_mode, locked_punctuation, apply_punctuation_lock, set_character_width,
  finish_if_direct, enter_mode, switch_english, enter_scheme, set_mode,
  toggle_dedicated_english_mode, select_active_helpcode_schema, with_helpcode, switch_scheme, reset,
}
use msime_linux.Controller.Advance.Relation.{
  Returns, bind-Returns, IsQuiet, Inv, Advances, Room, Progress, then-Progress, Draws,
  Advances-refl, Advances-trans, Advances-weaken, Draws-Advances, Advances-draw, renew-Advances,
  conclude-Advances, finish_composition-Advances, invalidate_context-Draws,
}

module _ {S W Q O : Type 0} (E : Engine S W Q O) where
  pub set_punctuation_mode-Draws :
      (m : PunctuationMode) (c : Controller S W)
      → Room E 1 c
      → Returns (λ q. Draws 1 c q.1) (set_punctuation_mode m c)
  unfolding set_punctuation_mode
  set_punctuation_mode-Draws m c room = ground arith

  pub set_character_width-Draws :
      (w : CharacterWidth) (c : Controller S W)
      → Room E 1 c
      → Returns (λ q. Draws 1 c q.1) (set_character_width w c)
  unfolding set_character_width
  set_character_width-Draws w c room = ground arith

  pub apply_punctuation_lock-Draws :
      (c : Controller S W) → Room E 1 c → Returns (Draws 1 c) (apply_punctuation_lock c)
  unfolding apply_punctuation_lock
  apply_punctuation_lock-Draws c room =
      bind-Returns (λ q. Draws 1 c q.1) (Draws 1 c) _ _
        (set_punctuation_mode-Draws (locked_punctuation c.punctuation_lock c.mode) c room)
        (λ q p. p)

  pub clear-Draws : (c : Controller S W) → Draws 0 c (clear_smart_punctuation_history c)
  unfolding clear_smart_punctuation_history
  clear-Draws c = ground arith

  finish_if_direct-Advances :
      (quiet : IsQuiet E) (m : InputMode) (c : Controller S W)
      → Inv E c
      → Room E 1 c
      → Returns (Progress E 1 c) (finish_if_direct E m c)
  unfolding finish_if_direct
  finish_if_direct-Advances quiet InputMode.ime c v room = Advances-refl E 1 c v
  finish_if_direct-Advances quiet InputMode.direct c v room =
      finish_composition-Advances E quiet c v room

  enter_mode-Advances :
      (m : InputMode) (c : Controller S W)
      → Room E 2 c
      → Returns (Advances E 2 c) (enter_mode E m c)
  unfolding enter_mode
  enter_mode-Advances m c room =
      let s : S = E.set_dedicated_english c.session false in
      let entered : Controller S W = record c { session = s; snapshot = E.snapshot s; mode = m } in
      bind-Returns (Draws 1 entered) (Advances E 2 c) (apply_punctuation_lock entered) _
        (apply_punctuation_lock-Draws entered (omega arith))
        λ d p. renew-Advances E 1 c d (rw (p.snapshot, p.session)) p.lower p.upper room

  switch_english-Advances :
      (c : Controller S W) → Room E 1 c → Returns (Advances E 1 c) (switch_english E c)
  unfolding switch_english refresh
  switch_english-Advances c room =
      let s : S = E.set_dedicated_english c.session (not c.snapshot.dedicated_english) in
      let b : Controller S W = record c { session = s; snapshot = E.snapshot s } in
      renew-Advances E 0 c b refl (omega arith) (omega arith) room

  with_helpcode-sequence :
      (s : Scheme) (c : Controller S W) → (with_helpcode E s c).sequence ≡ c.sequence
  unfolding with_helpcode
  with_helpcode-sequence quanpin c = refl
  with_helpcode-sequence shuangpin c = refl
  with_helpcode-sequence (Scheme.other n) c = refl

  enter_scheme-Advances :
      (s : Scheme) (c : Controller S W) → Room E 1 c → Returns (Advances E 1 c) (enter_scheme E s c)
  unfolding enter_scheme refresh select_active_helpcode_schema
  enter_scheme-Advances s c room =
      let t : S = E.switch_scheme (E.set_dedicated_english c.session false) s in
      let b : Controller S W = record c { session = t; snapshot = E.snapshot t } in
      let same = with_helpcode-sequence b.snapshot.scheme b in
      renew-Advances E 0 c (select_active_helpcode_schema E b) refl (omega arith) (omega arith) room

  pub clear-Advances :
      (k : ℕ) (c : Controller S W) → Inv E c → Advances E k c (clear_smart_punctuation_history c)
  clear-Advances k c v =
      Advances-weaken E 0 k c _ (omega arith) (Draws-Advances E 0 c _ v (clear-Draws c))

  -- What is proved behind the cleared history holds of the whole operation.
  pub cleared :
      (k : ℕ) (c : Controller S W) (m : Step S W)
      → Inv E c
      → Returns (Progress E k (clear_smart_punctuation_history c)) m
      → Returns (Progress E k c) m
  cleared k c (returned q) v p =
      Advances-weaken E (0 + k) k c q.1 (omega arith)
        (Advances-trans E 0 k c _ q.1 (clear-Advances 0 c v) p)
  cleared k c (thrown d) v p = p

  pub clear-Inv : (c : Controller S W) → Inv E c → Inv E (clear_smart_punctuation_history c)
  clear-Inv c v = (clear-Advances 0 c v).inv

  pub clear-Room :
      (k : ℕ) (c : Controller S W) → Room E k c → Room E k (clear_smart_punctuation_history c)
  clear-Room k c room = omega (arith, (clear-Draws c).upper)

  pub set_mode-Progress :
      (quiet : IsQuiet E) (m : InputMode) (c : Controller S W)
      → Inv E c
      → Room E 3 c
      → Returns (Progress E 3 c) (set_mode E m c)
  unfolding set_mode
  set_mode-Progress quiet m c v room = elim (Bool-cases (same_mode c.mode m)) [
    | inl h ↦ rw h (clear-Advances 3 c v)
    | inr h ↦ rw h (
        cleared 3 c _ v (
          then-Progress E 1 2 _ _ (enter_mode E m) _
            (finish_if_direct-Advances quiet m _ (clear-Inv c v) (clear-Room 1 c (omega arith)))
            (λ d a. enter_mode-Advances m d (omega (arith, a.upper, clear-Room 3 c room)))))
  ]

  pub toggle_dedicated_english_mode-Progress :
      (quiet : IsQuiet E) (c : Controller S W)
      → Inv E c
      → Room E 2 c
      → Returns (Progress E 2 c) (toggle_dedicated_english_mode E c)
  unfolding toggle_dedicated_english_mode
  toggle_dedicated_english_mode-Progress quiet c v room =
      elim (Bool-cases (same_mode c.mode InputMode.ime)) [
        | inr h ↦ rw h (clear-Advances 2 c v)
        | inl h ↦ rw h (
            cleared 2 c _ v (
              then-Progress E 1 1 _ _ (switch_english E) _
                (finish_composition-Advances E quiet _ (clear-Inv c v)
                  (clear-Room 1 c (omega arith)))
                (λ d a. switch_english-Advances d (omega (arith, a.upper, clear-Room 2 c room)))))
      ]

  pub switch_scheme-Progress :
      (quiet : IsQuiet E) (s : Scheme) (c : Controller S W)
      → Inv E c
      → Room E 2 c
      → Returns (Progress E 2 c) (switch_scheme E s c)
  unfolding switch_scheme
  switch_scheme-Progress quiet s c v room =
      elim (Bool-cases (same_scheme c.snapshot.scheme s && is_inactive c.snapshot.local_mode)) [
        | inl h ↦ rw h (clear-Advances 2 c v)
        | inr h ↦ rw h (
            cleared 2 c _ v (
              then-Progress E 1 1 _ _ (enter_scheme E s) _
                (finish_composition-Advances E quiet _ (clear-Inv c v)
                  (clear-Room 1 c (omega arith)))
                (λ d a. enter_scheme-Advances s d (omega (arith, a.upper, clear-Room 2 c room)))))
      ]

  pub reset-Advances :
      (quiet : IsQuiet E) (c : Controller S W)
      → Inv E c
      → Room E 2 c
      → Returns (Advances E 2 c) (reset E c)
  unfolding reset
  reset-Advances quiet c v room =
      bind-Returns (Progress E 1 c) (Advances E 2 c) _ _
        (conclude-Advances E c (E.cancel c.session) v (omega arith) (quiet.cancel c.session))
        λ q p.
          let drawn = invalidate_context-Draws E q.1 (omega (arith, p.upper)) in
          drawn-Advances q.1 (invalidate_context q.1) p drawn
    where
      drawn-Advances :
          (b : Controller S W) (m : Outcome S W (Controller S W))
          → Advances E 1 c b
          → Returns (Draws 1 b) m
          → Returns (Advances E 2 c) m
      drawn-Advances b (returned d) p q = Advances-draw E 1 1 c b d p q
      drawn-Advances b (thrown d) p q = q
