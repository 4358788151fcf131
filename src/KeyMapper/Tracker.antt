-- ===== src/KeyMapper/Tracker.antt =====
-- The class IBusModeToggleTracker (src/IBusKeyMapper.cpp): when a lone tap of Shift or Control, or
-- the chord Control, Alt and Space, toggles the mode.
use msime_linux.Base.{ℕ, Bool, true, false, not, ◌&&◌, List, [], ◌∷◌, ◌==◌, if◌then◌else◌}
use msime_linux.KeyMapper.Types.{
  Bindings, Tracker, Modifiers, Keysyms, has_host_modifier, has_host_modifier_but_control,
  hotkey_is, is_shift_key, is_ctrl_key,
}

abbrev pub default_bindings : Bindings
default_bindings = record { shift = true; ctrl = false; ctrl_alt_space = true }

abbrev pub initial_tracker : Tracker
initial_tracker = record {
  bindings = default_bindings;
  shift_armed = false;
  ctrl_armed = false;
  chord_held = false;
}

-- A flag stays set only where its binding is on.
unfoldable pub configure : Bindings → Tracker → Tracker
configure b t = record {
  bindings = b;
  shift_armed = if not b.shift then false else t.shift_armed;
  ctrl_armed = if not b.ctrl then false else t.ctrl_armed;
  chord_held = if not b.ctrl_alt_space then false else t.chord_held;
}

-- The press of Control, Alt and Space; 32 is `IBUS_space`.
unfoldable pub is_chord : ℕ → Modifiers → Bool
unfolding hotkey_is
is_chord key s = not s.release && key == 32 && hotkey_is true true false s

unfoldable pub observe_chord : Tracker → Bool × Tracker
observe_chord t = (not t.chord_held, record t { chord_held = true })

unfoldable pub observe_shift : Modifiers → Tracker → Bool × Tracker
unfolding has_host_modifier
observe_shift s t =
    if not s.release
    then (
      false,
      record t { shift_armed = t.bindings.shift && not (has_host_modifier s); ctrl_armed = false },
    )
    else (
      t.shift_armed && t.bindings.shift && not (has_host_modifier s),
      record t { shift_armed = false },
    )

unfoldable pub observe_ctrl : Modifiers → Tracker → Bool × Tracker
unfolding has_host_modifier_but_control
observe_ctrl s t =
    if not s.release
    then (
      false,
      record t {
        shift_armed = false;
        ctrl_armed = t.bindings.ctrl && not (has_host_modifier_but_control s);
      },
    )
    else (
      t.ctrl_armed && t.bindings.ctrl && not (has_host_modifier_but_control s),
      record t { ctrl_armed = false },
    )

-- After the test for the chord.
unfoldable pub observe_key : Keysyms → ℕ → Modifiers → Tracker → Bool × Tracker
unfolding observe_shift observe_ctrl
observe_key K key s t =
    if is_shift_key K key
    then observe_shift s t
    else if is_ctrl_key K key
    then observe_ctrl s t
    else (false, record t { shift_armed = false; ctrl_armed = false })

unfoldable pub observe : Keysyms → ℕ → Modifiers → Tracker → Bool × Tracker
unfolding observe_key observe_chord is_chord
observe K key s t =
    if t.bindings.ctrl_alt_space && is_chord key s
    then observe_chord t
    else observe_key K key s (record t { chord_held = false })

-- The answers to a sequence of events, and the tracker after it.
unfoldable pub observe_all : Keysyms → List (ℕ × Modifiers) → Tracker → List Bool × Tracker
unfolding observe
observe_all K [] t = ([], t)
observe_all K ((key, s) ∷ events) t =
    let answer = observe K key s t in
    let later = observe_all K events answer.1 in (answer.0 ∷ later.0, later.1)
