-- ===== src/Settings/Places.antt =====
-- The names of groups and keys in the key file of src/SettingsStore.cpp.
use msime_linux.Base.{Bool, true, [], ◌∷◌, Bytes, not, is_empty, ◌&&◌, ◌||◌, leb, ◌==◌, codes}
use Prim.Native.String.{String}

-- Small letters and dashes: names that GLib takes for a group and for a key whatever its version.
abbrev pub are_name_bytes : Bytes → Bool
are_name_bytes [] = true
are_name_bytes (c ∷ rest) = (leb b'a' c && leb c b'z' || c == b'-') && are_name_bytes rest

abbrev pub is_name : String → Bool
is_name name = not (is_empty (codes name)) && are_name_bytes (codes name)

abbrev pub is_place : String → String → Bool
is_place group key = is_name group && is_name key
