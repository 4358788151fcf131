-- ===== src/Settings/Fields.antt =====
-- Two values of fields that are read back (src/SettingsStore.cpp).
use msime_linux.Base.{ℕ, Bool, true, Bytes, ◌≡◌, refl, arith}
use msime_linux.Controller.Types.{CharacterWidth, is_full}
use msime_linux.Settings.Valid.{Checks, valid_utf8_text}
use msime_linux.Settings.Load.{nonempty_text, width_of}

pub width_of-is_full : (w : CharacterWidth) → width_of (is_full w) ≡ w
unfolding width_of
width_of-is_full CharacterWidth.half = refl
width_of-is_full CharacterWidth.full = refl

pub nonempty_text-valid :
    (K : Checks) (maximum : ℕ) (newlines : Bool) (v : Bytes)
    → nonempty_text K maximum newlines v ≡ true
    → valid_utf8_text K maximum newlines v ≡ true
unfolding nonempty_text
nonempty_text-valid K maximum newlines v h = ground (arith, h)
