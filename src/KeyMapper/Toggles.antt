-- ===== src/KeyMapper/Toggles.antt =====
-- When the tracker of src/IBusKeyMapper.cpp toggles the mode, and when it does not.
use msime_linux.Base.{
  ℕ, zero, suc, Bool, true, false, not, List, [], ◌∷◌, ◌==◌, if◌then◌else◌, ◌≡◌, refl, ap, arith,
}
use msime_linux.KeyMapper.Types.{
  Bindings, Tracker, Modifiers, Keysyms, has_host_modifier, is_shift_key, is_ctrl_key,
}
use msime_linux.KeyMapper.Tracker.{
  configure, is_chord, observe_chord, observe_shift, observe_ctrl, observe_key, observe,
  observe_all,
}

-- A press and a release of Shift with nothing in between and no modifier of the host held toggles
-- the mode, from any state of the tracker in which the binding is on. The condition on the key: its
-- symbol is not that of the space bar.
pub lone_tap_toggles :
    (K : Keysyms) (key : ℕ) (press release : Modifiers) (t : Tracker)
    → t.bindings.shift ≡ true
    → is_shift_key K key ≡ true
    → (key == 32) ≡ false
    → press.release ≡ false
    → has_host_modifier press ≡ false
    → release.release ≡ true
    → has_host_modifier release ≡ false
    → (observe K key release (observe K key press t).1).0 ≡ true
unfolding observe observe_key observe_shift is_chord
lone_tap_toggles K key press release t b shift space p ph r rh = ground arith

-- A release toggles nothing right after an event of any other key than Shift and Control, so that a
-- modifier that was used with a key does not toggle when it is let go. The chord is the exception,
-- and is excluded here.
pub interrupted_tap :
    (K : Keysyms) (key other : ℕ) (release between : Modifiers) (t : Tracker)
    → is_shift_key K other ≡ false
    → is_ctrl_key K other ≡ false
    → is_chord other between ≡ false
    → release.release ≡ true
    → (observe K key release (observe K other between t).1).0 ≡ false
unfolding observe observe_key observe_shift observe_ctrl is_chord
interrupted_tap K key other release between t shift ctrl chord r = ground arith

-- How many answers ask for a toggle.
unfoldable pub toggles : List Bool → ℕ
toggles [] = 0
toggles (b ∷ bs) = if b then suc (toggles bs) else toggles bs

-- With every binding off, nothing toggles.
AllOff : Tracker → Type 0
AllOff t =
    (t.bindings.shift ≡ false) × (t.bindings.ctrl ≡ false) × (t.bindings.ctrl_alt_space ≡ false)

observe-AllOff :
    (K : Keysyms) (key : ℕ) (s : Modifiers) (t : Tracker)
    → AllOff t
    → ((observe K key s t).0 ≡ false) × AllOff (observe K key s t).1
unfolding observe observe_key observe_shift observe_ctrl AllOff
observe-AllOff K key s t (a, b, c) = (ground arith, (ground arith, ground arith, ground arith))

all_off_lem :
    (K : Keysyms) (events : List (ℕ × Modifiers)) (t : Tracker)
    → AllOff t
    → toggles (observe_all K events t).0 ≡ 0
unfolding observe_all toggles
all_off_lem K [] t off = refl
all_off_lem K ((key, s) ∷ events) t off =
    rw ((observe-AllOff K key s t off).0)
      (all_off_lem K events (observe K key s t).1 (observe-AllOff K key s t off).1)

observe_chord_lem :
    (K : Keysyms) (key : ℕ) (s : Modifiers) (t : Tracker)
    → t.bindings.ctrl_alt_space ≡ true
    → is_chord key s ≡ true
    → observe K key s t ≡ (not t.chord_held, record t { chord_held = true })
unfolding observe observe_chord
observe_chord_lem K key s t b c = rw (b, c) refl

-- A key that is held down repeats its press.
unfoldable pub repeated : ℕ → ℕ × Modifiers → List (ℕ × Modifiers)
repeated zero event = []
repeated (suc n) event = event ∷ repeated n event

-- With every binding off, no sequence of key events toggles the mode, whatever was pressed before
-- the bindings were turned off.
pub disabled_toggles :
    (K : Keysyms) (events : List (ℕ × Modifiers)) (b : Bindings) (t : Tracker)
    → b.shift ≡ false
    → b.ctrl ≡ false
    → b.ctrl_alt_space ≡ false
    → toggles (observe_all K events (configure b t)).0 ≡ 0
unfolding configure AllOff
disabled_toggles K events b t shift ctrl chord =
    all_off_lem K events (configure b t) (shift, ctrl, chord)

holds_chord :
    (K : Keysyms) (n : ℕ) (key : ℕ) (s : Modifiers) (t : Tracker)
    → t.bindings.ctrl_alt_space ≡ true
    → is_chord key s ≡ true
    → t.chord_held ≡ true
    → toggles (observe_all K (repeated n (key, s)) t).0 ≡ 0
unfolding repeated observe_all toggles
holds_chord K zero key s t b c h = refl
holds_chord K (suc n) key s t b c h =
    rw (observe_chord_lem K key s t b c)
      (rw h (holds_chord K n key s (record t { chord_held = true }) b c refl))

-- The chord toggles once, however long it is held: the first press toggles, and the presses that
-- the keyboard repeats do not, where the binding is on and the chord was not held before.
pub held_chord_toggles_once :
    (K : Keysyms) (n : ℕ) (key : ℕ) (s : Modifiers) (t : Tracker)
    → t.bindings.ctrl_alt_space ≡ true
    → is_chord key s ≡ true
    → t.chord_held ≡ false
    → toggles (observe_all K (repeated (suc n) (key, s)) t).0 ≡ 1
unfolding repeated observe_all toggles
held_chord_toggles_once K n key s t b c h =
    rw (observe_chord_lem K key s t b c)
      (rw h (ap suc (holds_chord K n key s (record t { chord_held = true }) b c refl)))
