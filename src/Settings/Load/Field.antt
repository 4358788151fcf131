-- ===== src/Settings/Load/Field.antt =====
-- Reading one key of the settings file (`SettingsStore::load` of src/SettingsStore.cpp).
use msime_linux.Base.{
  ℕ, Bool, true, false, not, ◌&&◌, Option, none, some, Bytes, is_empty, if◌then◌else◌,
}
use Prim.Native.String.{String}
use msime_linux.Controller.Types.{CharacterWidth}
use msime_linux.Settings.Types.{InputSettings}
use msime_linux.Settings.KeyFile.{ℤ, pos, negsuc, KeyFile}
use msime_linux.Settings.Valid.{Checks, within, valid_utf8_text}

-- The variables `settings` and `invalid` of `load`.
pub record Loaded : Type 0 where
  pub settings : InputSettings
  pub invalid : Bool

-- A key that is missing, one whose value is refused, and one whose value is taken.
unfoldable pub take_field :
    {A : Type 0} → Option (Option A) → (A → InputSettings → InputSettings) → Loaded → Loaded
take_field none set l = l
take_field (some none) set l = record l { invalid = true }
take_field (some (some a)) set l = record l { settings = set a l.settings }

unfoldable pub decode : {A : Type 0} → (Bytes → Option A) → Option Bytes → Option (Option A)
decode read none = none
decode read (some raw) = some (read raw)

unfoldable pub then_read : {A B : Type 0} → Option A → (A → Option B) → Option B
then_read none read = none
then_read (some a) read = read a

unfoldable pub if_valid : {A : Type 0} → (A → Bool) → A → Option A
if_valid valid a = if valid a then some a else none

unfoldable pub natural_within : ℕ → ℕ → ℤ → Option ℕ
unfolding if_valid within
natural_within low high (pos n) = if_valid (within low high) n
natural_within low high (negsuc n) = none

unfoldable pub width_of : Bool → CharacterWidth
width_of true = CharacterWidth.full
width_of false = CharacterWidth.half

unfoldable pub nonempty_text : Checks → ℕ → Bool → Bytes → Bool
unfolding valid_utf8_text
nonempty_text K maximum newlines value =
    valid_utf8_text K maximum newlines value && not (is_empty value)

module _ {F : Type 0} (G : KeyFile F) (f : F) where
  unfoldable pub load_boolean :
      String → String → (Bool → InputSettings → InputSettings) → Loaded → Loaded
  load_boolean group key set = take_field (decode G.parse_boolean (G.value f group key)) set

  unfoldable pub load_integer :
      ℕ → ℕ → String → String → (ℕ → InputSettings → InputSettings) → Loaded → Loaded
  load_integer low high group key set =
      take_field
        (decode (λ raw. then_read (G.parse_integer raw) (natural_within low high))
          (G.value f group key))
        set

  unfoldable pub load_string :
      (Bytes → Bool) → String → String → (Bytes → InputSettings → InputSettings) → Loaded → Loaded
  load_string valid group key set =
      take_field (decode (λ raw. then_read (G.unescape raw) (if_valid valid)) (G.value f group key))
        set

  -- A name of an enumeration.
  unfoldable pub load_choice :
      {A : Type 0}
      → (Bytes → Option A)
      → String
      → String
      → (A → InputSettings → InputSettings)
      → Loaded
      → Loaded
  load_choice parse group key set =
      take_field (decode (λ raw. then_read (G.unescape raw) parse) (G.value f group key)) set
