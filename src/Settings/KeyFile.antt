-- ===== src/Settings/KeyFile.antt =====
-- The key files of GLib, in which the settings are stored: what src/SettingsStore.cpp calls, and
-- what GLib documents of these calls. A file maps a group and a key to a raw value; strings,
-- Booleans and integers are written as raw values and read back.
use msime_linux.Base.{
  ℕ, ◌≤◌, Bool, true, Option, none, some, List, [], ◌∷◌, Bytes, if◌then◌else◌, ◌&&◌, ◌≡◌,
}
use Prim.Native.String.{String}
use text.Mathlib.Text.{◌==◌}
use msime_linux.Settings.Places.{is_place}

-- `negsuc n` is -(n + 1).
pub data ℤ : Type 0 where
  pos : ℕ → ℤ
  negsuc : ℕ → ℤ

pub record KeyFile (F : Type 0) : Type 0 where
  pub empty : F
  pub load_from_data : Bytes → Option F
  pub to_data : F → Option Bytes
  pub value : F → String → String → Option Bytes
  pub set_value : F → String → String → Bytes → F
  pub remove_key : F → String → String → F
  pub escape : Bytes → Bytes
  pub unescape : Bytes → Option Bytes
  pub print_boolean : Bool → Bytes
  pub parse_boolean : Bytes → Option Bool
  pub print_integer : ℕ → Bytes
  pub parse_integer : Bytes → Option ℤ

-- Two places of a file are the same.
abbrev pub same_place : String → String → String → String → Bool
same_place group key group' key' = group == group' && key == key'

-- `G_MAXINT`: the integers of a key file are `gint`.
abbrev pub max_integer : ℕ
max_integer = 2147483647

-- The documented behaviour of a file that is changed and read, and of values that are written and
-- read back. It is asked of names that are valid, of strings that GLib takes for valid UTF-8, and
-- of the integers that a `gint` holds.
pub record KeyFileLaws {F : Type 0} (G : KeyFile F) (utf8_validate : Bytes → Bool) : Type 0 where
  pub value_set :
      (f : F) (group key : String) (v : Bytes) (group' key' : String)
      → is_place group key ≡ true
      → is_place group' key' ≡ true
      → G.value (G.set_value f group key v) group' key'
        ≡ (if same_place group key group' key' then some v else G.value f group' key')
  pub value_remove :
      (f : F) (group key group' key' : String)
      → is_place group key ≡ true
      → is_place group' key' ≡ true
      → G.value (G.remove_key f group key) group' key'
        ≡ (if same_place group key group' key' then none else G.value f group' key')
  pub unescape_escape : (v : Bytes) → utf8_validate v ≡ true → G.unescape (G.escape v) ≡ some v
  pub parse_print_boolean : (b : Bool) → G.parse_boolean (G.print_boolean b) ≡ some b
  pub parse_print_integer :
      (n : ℕ) → n ≤ max_integer → G.parse_integer (G.print_integer n) ≡ some (pos n)

-- A line of the file that is written, and a file after some such lines and some removals.
pub record Write : Type 0 where
  pub group : String
  pub key : String
  pub raw : Bytes

module _ {F : Type 0} (G : KeyFile F) where
  unfoldable pub set_all : List Write → F → F
  set_all [] f = f
  set_all (w ∷ ws) f = set_all ws (G.set_value f w.group w.key w.raw)

  unfoldable pub remove_all : List (String × String) → F → F
  remove_all [] f = f
  remove_all ((group, key) ∷ rest) f = remove_all rest (G.remove_key f group key)
