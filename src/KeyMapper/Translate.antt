-- ===== src/KeyMapper/Translate.antt =====
-- `translate_ibus_key` (src/IBusKeyMapper.cpp).
use msime_linux.Base.{ℕ, ◌-◌, Bool, true, false, ◌&&◌, ◌||◌, none, ◌==◌, if◌then◌else◌}
use msime_linux.Controller.Types.{Event, FrontendKey}
use msime_linux.KeyMapper.Types.{
  Disposition, Translation, Modifiers, Keysyms, has_host_modifier, hotkey_is, in_range,
  is_ascii_punctuation, is_modifier_keysym,
}

-- A default `FrontendKeyEvent`.
abbrev pub no_event : Event
no_event = record {
  key = FrontendKey.character;
  character = 0;
  digit = 0;
  host_shortcut = false;
  preceding_character = none;
  shift_only = false;
}

abbrev pub nothing_translated : Translation
nothing_translated = record { disposition = Disposition.ignore; event = no_event }

unfoldable pub dispatch : FrontendKey → Bool → Translation
dispatch key shift_only = record {
  disposition = Disposition.dispatch;
  event = record no_event { key = key; shift_only = shift_only };
}

unfoldable pub forward : Translation
forward = record {
  disposition = Disposition.forward;
  event = record no_event { host_shortcut = true };
}

unfoldable pub punctuation : ℕ → Bool → Translation
punctuation character shift_only = record {
  disposition = Disposition.dispatch;
  event = record no_event {
    key = FrontendKey.punctuation;
    shift_only = shift_only;
    character = character;
  };
}

unfoldable pub digit : ℕ → Bool → Translation
digit d shift_only = record {
  disposition = Disposition.dispatch;
  event = record no_event { key = FrontendKey.digit; shift_only = shift_only; digit = d };
}

unfoldable pub letter : ℕ → Bool → Translation
letter character shift_only = record {
  disposition = Disposition.dispatch;
  event = record no_event { shift_only = shift_only; character = character };
}

-- After the `switch`.
unfoldable pub translate_character : Keysyms → ℕ → Bool → Translation
unfolding digit letter punctuation forward in_range is_ascii_punctuation
translate_character K k shift_only =
    if in_range 48 57 k
    then digit (k - 48) shift_only
    else if in_range K.kp_0 K.kp_9 k
    then digit (k - K.kp_0) shift_only
    else if in_range 97 122 k || in_range 65 90 k
    then letter k shift_only
    else if is_ascii_punctuation k
    then punctuation k shift_only
    else forward

-- The `switch` and what follows it.
unfoldable pub translate_plain : Keysyms → ℕ → Bool → Translation
unfolding dispatch translate_character
translate_plain K k shift_only =
    if k == K.back_space
    then dispatch FrontendKey.backspace shift_only
    else if k == K.return || k == K.kp_enter
    then dispatch FrontendKey.enter shift_only
    else if k == K.escape
    then dispatch FrontendKey.escape shift_only
    else if k == 32
    then dispatch FrontendKey.space shift_only
    else if k == K.up || k == K.kp_up
    then dispatch FrontendKey.up shift_only
    else if k == K.down || k == K.kp_down
    then dispatch FrontendKey.down shift_only
    else if k == K.page_up || k == K.kp_page_up || k == K.iso_left_tab
    then dispatch FrontendKey.page_up shift_only
    else if k == K.page_down || k == K.kp_page_down || k == K.tab
    then dispatch FrontendKey.page_down shift_only
    else translate_character K k shift_only

-- The three shortcuts of the input method, and then the host's: 46 is the period, 69 is `E`.
unfoldable pub translate_shortcut : Keysyms → ℕ → Modifiers → Translation
unfolding translate_plain hotkey_is has_host_modifier dispatch forward
translate_shortcut K k s =
    let shift_only = hotkey_is false false true s in
    if k == 46 && hotkey_is true false false s
    then dispatch FrontendKey.toggle_punctuation false
    else if k == 32 && hotkey_is true false true s
    then dispatch FrontendKey.toggle_width shift_only
    else if k == 69 && hotkey_is true false true s
    then dispatch FrontendKey.toggle_english false
    else if has_host_modifier s
    then forward
    else translate_plain K k shift_only

unfoldable pub translate_ibus_key : Keysyms → ℕ → Modifiers → Translation
unfolding translate_shortcut is_modifier_keysym
translate_ibus_key K k s =
    if s.release
    then nothing_translated
    else if is_modifier_keysym K k
    then nothing_translated
    else translate_shortcut K k s
