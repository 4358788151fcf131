-- ===== src/Settings/Keeps.antt =====
-- Reading a field of the settings file keeps what its values keep (src/SettingsStore.cpp).
use msime_linux.Base.{
  ℕ, Bool, true, false, not, Option, some, none, Bytes, is_empty, ◌≡◌, refl, arith, Bool-cases, inl,
  inr, set,
}
use Prim.Native.String.{String}
use msime_linux.Settings.Types.{InputSettings}
use msime_linux.Settings.KeyFile.{ℤ, pos, negsuc, KeyFile}
use msime_linux.Settings.Valid.{Checks, within, valid_input_settings}
use msime_linux.Settings.Load.{
  Loaded, take_field, decode, then_read, if_valid, natural_within, nonempty_text, load_boolean,
  load_integer, load_string, load_choice,
}

-- The settings with voice input and its polishing switched off.
unfoldable pub silenced : InputSettings → InputSettings
silenced s = record s { voice = record s.voice { enabled = false; polish_enabled = false } }

pub then_read-within :
    (o : Option ℤ) (low high n : ℕ)
    → then_read o (natural_within low high) ≡ some n
    → within low high n ≡ true
unfolding then_read natural_within if_valid
then_read-within none low high n h = absurd (cc h)
then_read-within (some (negsuc m)) low high n h = absurd (cc h)
then_read-within (some (pos m)) low high n h = elim (Bool-cases (within low high m)) [
  | inl yes' ↦ ground (arith, h, yes')
  | inr no' ↦ absurd (ground (arith, h, no'))
]

then_read-valid :
    (o : Option Bytes) (valid : Bytes → Bool) (v : Bytes)
    → then_read o (if_valid valid) ≡ some v
    → valid v ≡ true
unfolding then_read if_valid
then_read-valid none valid v h = absurd (cc h)
then_read-valid (some w) valid v h = elim (Bool-cases (valid w)) [
  | inl yes' ↦ ground (arith, h, yes')
  | inr no' ↦ absurd (ground (arith, h, no'))
]

-- Reading a field keeps a property that its values keep.
take_field-keeps :
    {A : Type 0}
    → (P : InputSettings → Type 0) (read : Bytes → Option A) (o : Option Bytes)
      (set : A → InputSettings → InputSettings) (l : Loaded)
    → ((raw : Bytes) (a : A) → read raw ≡ some a → P (set a l.settings))
    → P l.settings
    → P (take_field (decode read o) set l).settings
unfolding take_field decode
take_field-keeps {A = A} P read none set l k h = h
take_field-keeps {A = A} P read (some raw) set l k h = taken (read raw) refl
  where
    taken : (r : Option A) → read raw ≡ r → P (take_field (some r) set l).settings
    taken none e = h
    taken (some a) e = k raw a e

module _ {F : Type 0} (G : KeyFile F) (f : F) (P : InputSettings → Type 0) where
  pub boolean-keeps :
      (group key : String) (set : Bool → InputSettings → InputSettings) (l : Loaded)
      → ((b : Bool) → P (set b l.settings))
      → P l.settings
      → P (load_boolean G f group key set l).settings
  unfolding load_boolean
  boolean-keeps group key set l k h = take_field-keeps P _ _ set l (λ raw b e. k b) h

  pub choice-keeps :
      {A : Type 0}
      → (parse : Bytes → Option A) (group key : String) (set : A → InputSettings → InputSettings)
        (l : Loaded)
      → ((a : A) → P (set a l.settings))
      → P l.settings
      → P (load_choice G f parse group key set l).settings
  unfolding load_choice
  choice-keeps parse group key set l k h = take_field-keeps P _ _ set l (λ raw a e. k a) h

  pub integer-keeps :
      (low high : ℕ) (group key : String) (set : ℕ → InputSettings → InputSettings) (l : Loaded)
      → ((n : ℕ) → within low high n ≡ true → P (set n l.settings))
      → P l.settings
      → P (load_integer G f low high group key set l).settings
  unfolding load_integer
  integer-keeps low high group key set l k h =
      take_field-keeps P _ _ set l (λ raw n e. k n (then_read-within _ low high n e)) h

  pub string-keeps :
      (valid : Bytes → Bool) (group key : String) (set : Bytes → InputSettings → InputSettings)
      (l : Loaded)
      → ((v : Bytes) → valid v ≡ true → P (set v l.settings))
      → P l.settings
      → P (load_string G f valid group key set l).settings
  unfolding load_string
  string-keeps valid group key set l k h =
      take_field-keeps P _ _ set l (λ raw v e. k v (then_read-valid _ valid v e)) h

pub nonempty_text_nonempty :
    (K : Checks) (maximum : ℕ) (newlines : Bool) (v : Bytes)
    → nonempty_text K maximum newlines v ≡ true
    → not (is_empty v) ≡ true
unfolding nonempty_text
nonempty_text_nonempty K maximum newlines v h = ground (arith, h)

module _ {F : Type 0} (G : KeyFile F) (K : Checks) (f : F) where
  -- Storable once voice input is off.
  unfoldable pub Storable : InputSettings → Type 0
  Storable s = valid_input_settings K (silenced s) ≡ true
