-- ===== src/KeyMapper/Tests.antt =====
-- Concrete key events (src/IBusKeyMapper.cpp), with the symbols of ibus.h written as small numbers
-- above those of ASCII.
use msime_linux.Base.{true, false, [], ◌∷◌, ◌≡◌, refl}
use msime_linux.KeyMapper.Types.{
  Bindings, Modifiers, Keysyms, has_host_modifier, hotkey_is, is_shift_key, is_ctrl_key,
}
use msime_linux.KeyMapper.Tracker.{initial_tracker, is_chord, configure, observe, observe_all}
use msime_linux.KeyMapper.Translate.{translate_ibus_key}
use msime_linux.KeyMapper.Toggles.{
  toggles, repeated, lone_tap_toggles, interrupted_tap, disabled_toggles, held_chord_toggles_once,
}
use msime_linux.KeyMapper.Shape.{IsShaped, translate_ibus_key-IsShaped}

abbrev toy_keys : Keysyms
toy_keys = record {
  shift_l = 1001;
  shift_r = 1002;
  control_l = 1003;
  control_r = 1004;
  other_modifiers = 1005 ∷ 1006 ∷ [];
  back_space = 1010;
  return = 1011;
  kp_enter = 1012;
  escape = 1013;
  up = 1014;
  kp_up = 1015;
  down = 1016;
  kp_down = 1017;
  page_up = 1018;
  kp_page_up = 1019;
  iso_left_tab = 1020;
  page_down = 1021;
  kp_page_down = 1022;
  tab = 1023;
  kp_0 = 1030;
  kp_9 = 1039;
}

abbrev no_modifiers : Modifiers
no_modifiers = record {
  control = false;
  mod1 = false;
  mod4 = false;
  super = false;
  meta = false;
  shift = false;
  release = false;
}

abbrev shift_up : Modifiers
shift_up = record no_modifiers { shift = true; release = true }

abbrev control_alt : Modifiers
control_alt = record no_modifiers { control = true; mod1 = true }

abbrev all_off : Bindings
all_off = record { shift = false; ctrl = false; ctrl_alt_space = false }

lone_tap_toggles_example :
    (observe toy_keys 1001 shift_up (observe toy_keys 1001 no_modifiers initial_tracker).1).0 ≡ true
unfolding is_shift_key has_host_modifier
lone_tap_toggles_example =
    lone_tap_toggles toy_keys 1001 no_modifiers shift_up initial_tracker refl refl refl refl refl
      refl refl

interrupted_tap_example :
    (observe toy_keys 1001 shift_up
      (observe toy_keys 65
        (record no_modifiers { shift = true })
        (record initial_tracker { shift_armed = true })).1).0
    ≡ false
unfolding is_shift_key is_ctrl_key is_chord hotkey_is
interrupted_tap_example =
    interrupted_tap toy_keys 1001 65 shift_up (record no_modifiers { shift = true })
      (record initial_tracker { shift_armed = true }) refl refl refl refl

disabled_toggles_example :
    toggles
      (observe_all toy_keys
        ((1001, no_modifiers) ∷ (1001, shift_up) ∷ (32, control_alt) ∷ [])
        (configure all_off initial_tracker)).0
    ≡ 0
disabled_toggles_example =
    disabled_toggles toy_keys ((1001, no_modifiers) ∷ (1001, shift_up) ∷ (32, control_alt) ∷ [])
      all_off initial_tracker refl refl refl

held_chord_toggles_once_example :
    toggles (observe_all toy_keys (repeated 30 (32, control_alt)) initial_tracker).0 ≡ 1
unfolding is_chord hotkey_is
held_chord_toggles_once_example =
    held_chord_toggles_once toy_keys 29 32 control_alt initial_tracker refl refl refl

translate_ibus_key-IsShaped_example : IsShaped (translate_ibus_key toy_keys 1037 no_modifiers)
translate_ibus_key-IsShaped_example = translate_ibus_key-IsShaped toy_keys 1037 no_modifiers refl
