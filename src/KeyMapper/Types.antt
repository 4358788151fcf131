-- ===== src/KeyMapper/Types.antt =====
-- The types of src/IBusKeyMapper.h, and the constants of ibus.h, which is not in the repository.
use msime_linux.Base.{ℕ, Bool, true, false, not, ◌&&◌, ◌||◌, List, [], ◌∷◌, ◌==◌, leb}
use msime_linux.Controller.Types.{Event}

pub data Disposition : Type 0 where
  ignore forward dispatch : Disposition

pub record Translation : Type 0 where
  pub disposition : Disposition
  pub event : Event

pub record Bindings : Type 0 where
  pub shift : Bool
  pub ctrl : Bool
  pub ctrl_alt_space : Bool

pub record Tracker : Type 0 where
  pub bindings : Bindings
  pub shift_armed : Bool
  pub ctrl_armed : Bool
  pub chord_held : Bool

-- A `guint state`, by the bits that the masks of ibus.h name: Control, Mod1, Mod4, Super, Meta,
-- Shift and Release are seven different bits. No other bit is read.
pub record Modifiers : Type 0 where
  pub control : Bool
  pub mod1 : Bool
  pub mod4 : Bool
  pub super : Bool
  pub meta : Bool
  pub shift : Bool
  pub release : Bool

-- The key symbols of ibus.h that the mapper names; a symbol of ASCII is its code.
pub record Keysyms : Type 0 where
  pub shift_l : ℕ
  pub shift_r : ℕ
  pub control_l : ℕ
  pub control_r : ℕ
  -- Caps_Lock to ISO_Level5_Shift in `is_modifier_keysym`.
  pub other_modifiers : List ℕ
  pub back_space : ℕ
  pub return : ℕ
  pub kp_enter : ℕ
  pub escape : ℕ
  pub up : ℕ
  pub kp_up : ℕ
  pub down : ℕ
  pub kp_down : ℕ
  pub page_up : ℕ
  pub kp_page_up : ℕ
  pub iso_left_tab : ℕ
  pub page_down : ℕ
  pub kp_page_down : ℕ
  pub tab : ℕ
  pub kp_0 : ℕ
  pub kp_9 : ℕ

-- `state & kHostModifierMask` is not zero.
unfoldable pub has_host_modifier : Modifiers → Bool
has_host_modifier s = s.control || s.mod1 || s.mod4 || s.super || s.meta

-- The same without the Control bit.
unfoldable pub has_host_modifier_but_control : Modifiers → Bool
has_host_modifier_but_control s = s.mod1 || s.mod4 || s.super || s.meta

-- `state & kHotkeyModifierMask` is these three bits and no other of the mask.
unfoldable pub hotkey_is : Bool → Bool → Bool → Modifiers → Bool
hotkey_is control mod1 shift s =
    same control s.control
    && same mod1 s.mod1
    && same shift s.shift
    && not (s.mod4 || s.super || s.meta)
  where
    same : Bool → Bool → Bool
    same true b = b
    same false b = not b

unfoldable pub in_range : ℕ → ℕ → ℕ → Bool
in_range low high k = leb low k && leb k high

unfoldable pub is_ascii_punctuation : ℕ → Bool
unfolding in_range
is_ascii_punctuation k =
    in_range 33 47 k || in_range 58 64 k || in_range 91 96 k || in_range 123 126 k

unfoldable pub is_shift_key : Keysyms → ℕ → Bool
is_shift_key K k = k == K.shift_l || k == K.shift_r

unfoldable pub is_ctrl_key : Keysyms → ℕ → Bool
is_ctrl_key K k = k == K.control_l || k == K.control_r

unfoldable pub is_one_of : List ℕ → ℕ → Bool
is_one_of [] k = false
is_one_of (x ∷ xs) k = k == x || is_one_of xs k

unfoldable pub is_modifier_keysym : Keysyms → ℕ → Bool
unfolding is_shift_key is_ctrl_key is_one_of
is_modifier_keysym K k = is_shift_key K k || is_ctrl_key K k || is_one_of K.other_modifiers k
