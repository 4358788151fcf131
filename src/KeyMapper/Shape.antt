-- ===== src/KeyMapper/Shape.antt =====
-- What a translated key looks like (src/IBusKeyMapper.cpp).
use msime_linux.Base.{
  ℕ, ◌+◌, ◌-◌, ◌≤◌, Bool, true, false, ◌&&◌, ◌||◌, ◌==◌, if◌then◌else◌, ◌≡◌, refl, arith,
}
use msime_linux.Controller.Types.{FrontendKey}
use msime_linux.KeyMapper.Types.{
  Disposition, Translation, Modifiers, Keysyms, has_host_modifier, hotkey_is, in_range,
  is_ascii_punctuation,
}
use msime_linux.KeyMapper.Translate.{
  nothing_translated, dispatch, forward, punctuation, digit, letter, translate_character,
  translate_plain, translate_shortcut, translate_ibus_key,
}

abbrev pub is_forward : Disposition → Bool
is_forward Disposition.forward = true
is_forward _ = false

-- A digit is one, a character is printable ASCII or absent, and exactly a forwarded key is marked
-- as a shortcut of the host.
unfoldable pub IsShaped : Translation → Type 0
IsShaped t =
    (t.event.digit ≤ 9)
    × (t.event.character ≤ 126)
    × (t.event.host_shortcut ≡ is_forward t.disposition)

if-IsShaped :
    (b : Bool) (x y : Translation) → IsShaped x → IsShaped y → IsShaped (if b then x else y)
if-IsShaped true x y p q = p
if-IsShaped false x y p q = q

under_if-IsShaped :
    (b : Bool) (x y : Translation)
    → (b ≡ true → IsShaped x)
    → IsShaped y
    → IsShaped (if b then x else y)
under_if-IsShaped true x y p q = p refl
under_if-IsShaped false x y p q = q

dispatch-IsShaped : (key : FrontendKey) (shift_only : Bool) → IsShaped (dispatch key shift_only)
unfolding dispatch IsShaped
dispatch-IsShaped key shift_only = (omega arith, omega arith, refl)

dispatched-IsShaped :
    (b : Bool) (key : FrontendKey) (shift_only : Bool) (y : Translation)
    → IsShaped y
    → IsShaped (if b then dispatch key shift_only else y)
dispatched-IsShaped b key shift_only y q = if-IsShaped b _ y (dispatch-IsShaped key shift_only) q

forward-IsShaped : IsShaped forward
unfolding forward IsShaped
forward-IsShaped = (omega arith, omega arith, refl)

nothing_translated-IsShaped : IsShaped nothing_translated
unfolding IsShaped
nothing_translated-IsShaped = (omega arith, omega arith, refl)

digit-IsShaped :
    (low high k : ℕ) (shift_only : Bool)
    → high ≡ low + 9
    → in_range low high k ≡ true
    → IsShaped (digit (k - low) shift_only)
unfolding digit IsShaped in_range
digit-IsShaped low high k shift_only e h = (ground arith, omega arith, refl)

letter-IsShaped :
    (k : ℕ) (shift_only : Bool)
    → (in_range 97 122 k || in_range 65 90 k) ≡ true
    → IsShaped (letter k shift_only)
unfolding letter IsShaped in_range
letter-IsShaped k shift_only h = (omega arith, ground arith, refl)

punctuation-IsShaped :
    (k : ℕ) (shift_only : Bool)
    → is_ascii_punctuation k ≡ true
    → IsShaped (punctuation k shift_only)
unfolding punctuation IsShaped is_ascii_punctuation in_range
punctuation-IsShaped k shift_only h = (omega arith, ground arith, refl)

translate_character-IsShaped :
    (K : Keysyms) (k : ℕ) (shift_only : Bool)
    → K.kp_9 ≡ K.kp_0 + 9
    → IsShaped (translate_character K k shift_only)
unfolding translate_character
translate_character-IsShaped K k o e =
    under_if-IsShaped _ _ _ (λ h. digit-IsShaped 48 57 k o (omega arith) h)
      (under_if-IsShaped _ _ _ (λ h. digit-IsShaped K.kp_0 K.kp_9 k o e h)
        (under_if-IsShaped _ _ _ (λ h. letter-IsShaped k o h)
          (under_if-IsShaped _ _ _ (λ h. punctuation-IsShaped k o h) forward-IsShaped)))

translate_plain-IsShaped :
    (K : Keysyms) (k : ℕ) (shift_only : Bool)
    → K.kp_9 ≡ K.kp_0 + 9
    → IsShaped (translate_plain K k shift_only)
unfolding translate_plain
translate_plain-IsShaped K k o e =
    dispatched-IsShaped (k == K.back_space) FrontendKey.backspace o _ (
      dispatched-IsShaped (k == K.return || k == K.kp_enter) FrontendKey.enter o _ (
        dispatched-IsShaped (k == K.escape) FrontendKey.escape o _ (
          dispatched-IsShaped (k == 32) FrontendKey.space o _ (
            dispatched-IsShaped (k == K.up || k == K.kp_up) FrontendKey.up o _ (
              dispatched-IsShaped (k == K.down || k == K.kp_down) FrontendKey.down o _ (
                dispatched-IsShaped (k == K.page_up || k == K.kp_page_up || k == K.iso_left_tab)
                  FrontendKey.page_up o _
                  (dispatched-IsShaped (k == K.page_down || k == K.kp_page_down || k == K.tab)
                    FrontendKey.page_down o _ (translate_character-IsShaped K k o e))))))))

translate_shortcut-IsShaped :
    (K : Keysyms) (k : ℕ) (s : Modifiers)
    → K.kp_9 ≡ K.kp_0 + 9
    → IsShaped (translate_shortcut K k s)
unfolding translate_shortcut
translate_shortcut-IsShaped K k s e =
    let shift_only = hotkey_is false false true s in
    dispatched-IsShaped (k == 46 && hotkey_is true false false s) FrontendKey.toggle_punctuation
      false _
      (dispatched-IsShaped (k == 32 && hotkey_is true false true s) FrontendKey.toggle_width
        shift_only _
        (dispatched-IsShaped (k == 69 && hotkey_is true false true s) FrontendKey.toggle_english
          false _
          (if-IsShaped (has_host_modifier s) _ _ forward-IsShaped
            (translate_plain-IsShaped K k shift_only e))))

-- Every key event is translated to a well-formed one: the digit is at most 9, so that it can index a
-- page of candidates; the character is at most 126, so that it is one byte of ASCII; and the event
-- is marked as a shortcut of the host exactly where the key is forwarded. The condition is what
-- ibus.h says of the keypad: its ten digits have consecutive symbols.
pub translate_ibus_key-IsShaped :
    (K : Keysyms) (k : ℕ) (s : Modifiers)
    → K.kp_9 ≡ K.kp_0 + 9
    → IsShaped (translate_ibus_key K k s)
unfolding translate_ibus_key
translate_ibus_key-IsShaped K k s e =
    if-IsShaped _ _ _ nothing_translated-IsShaped
      (if-IsShaped _ _ _ nothing_translated-IsShaped (translate_shortcut-IsShaped K k s e))
