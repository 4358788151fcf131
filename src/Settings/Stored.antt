-- ===== src/Settings/Stored.antt =====
-- What a key file holds after the settings were stored in it (src/SettingsStore.cpp), and what
-- reading a key gives then.
use msime_linux.Base.{
  ℕ, Bool, true, false, ◌&&◌, ◌||◌, Option, none, some, List, [], ◌∷◌, Bytes, if◌then◌else◌, ◌≡◌,
  refl, ◌∙◌, ap, Bool-cases, inl, inr, arith, ltb, ◌≤◌,
}
use Prim.Native.String.{String}
use msime_linux.Settings.Types.{InputSettings}
use msime_linux.Settings.KeyFile.{
  KeyFile, KeyFileLaws, max_integer, same_place, Write, set_all, remove_all,
}
use msime_linux.Settings.Places.{is_place}
use msime_linux.Settings.Valid.{Checks, within}
use msime_linux.Settings.Load.{
  Loaded, take_field, decode, then_read, if_valid, natural_within, load_boolean, load_integer,
  load_string, load_choice,
}
use msime_linux.Settings.Save.{writes, secret_places, stored}

unfoldable pub is_ascii : Bytes → Bool
is_ascii [] = true
is_ascii (c ∷ rest) = ltb c 128 && is_ascii rest

-- What is documented of the checks: GLib takes ASCII for UTF-8, and the names of the helpcode
-- schemas are ASCII.
pub record ChecksLaws (K : Checks) : Type 0 where
  pub ascii_is_utf8 : (v : Bytes) → is_ascii v ≡ true → K.utf8_validate v ≡ true
  pub schema_is_ascii : (v : Bytes) → K.is_supported_helpcode_schema v ≡ true → is_ascii v ≡ true

and_left : (a b : Bool) → (a && b) ≡ true → a ≡ true
and_left a b h = ground arith

and_right : (a b : Bool) → (a && b) ≡ true → b ≡ true
and_right a b h = ground arith

within-le : (low high n : ℕ) → within low high n ≡ true → n ≤ high
unfolding within
within-le low high n h = ground arith

prefer : Option Bytes → Option Bytes → Option Bytes
prefer (some v) w = some v
prefer none w = w

-- The last value that some lines give to a key.
unfoldable pub written : String → String → List Write → Option Bytes
unfolding prefer
written group key [] = none
written group key (w ∷ ws) =
    prefer (written group key ws) (if same_place w.group w.key group key then some w.raw else none)

unfoldable pub removed : String → String → List (String × String) → Bool
removed group key [] = false
removed group key ((g, k) ∷ rest) = same_place g k group key || removed group key rest

-- The places that the code writes and removes have valid names.
unfoldable pub are_places : List Write → Bool
are_places [] = true
are_places (w ∷ ws) = is_place w.group w.key && are_places ws

unfoldable pub are_removable : List (String × String) → Bool
are_removable [] = true
are_removable ((g, k) ∷ rest) = is_place g k && are_removable rest

prefer_if :
    (a : Option Bytes) (b : Bool) (v : Bytes) (w : Option Bytes)
    → prefer a (if b then some v else w) ≡ prefer (prefer a (if b then some v else none)) w
unfolding prefer
prefer_if (some x) b v w = refl
prefer_if none true v w = refl
prefer_if none false v w = refl

module _ {F : Type 0} (G : KeyFile F) (K : Checks) (laws : KeyFileLaws G K.utf8_validate) where
  value-set_all :
      (group key : String) (ws : List Write) (f : F)
      → is_place group key ≡ true
      → are_places ws ≡ true
      → G.value (set_all G ws f) group key ≡ prefer (written group key ws) (G.value f group key)
  unfolding set_all written prefer are_places
  value-set_all group key [] f p h = refl
  value-set_all group key (w ∷ ws) f p h =
      value-set_all group key ws (G.set_value f w.group w.key w.raw) p (and_right _ _ h)
      ∙ ap (prefer (written group key ws))
          (laws.value_set f w.group w.key w.raw group key (and_left _ _ h) p)
      ∙ prefer_if (written group key ws) (same_place w.group w.key group key) w.raw
          (G.value f group key)

  value-remove_all :
      (group key : String) (places : List (String × String)) (f : F)
      → is_place group key ≡ true
      → are_removable places ≡ true
      → removed group key places ≡ false
      → G.value (remove_all G places f) group key ≡ G.value f group key
  unfolding remove_all removed are_removable
  value-remove_all group key [] f p q h = refl
  value-remove_all group key ((g, k) ∷ rest) f p q h =
      elim (Bool-cases (same_place g k group key)) [
        | inl same ↦ absurd (ground (arith, h, same))
        | inr other ↦
            value-remove_all group key rest (G.remove_key f g k) p (and_right _ _ q) (ground arith)
            ∙ laws.value_remove f g k group key (and_left _ _ q) p
            ∙ rw other refl
      ]

  writes-are_places : (s : InputSettings) → are_places (writes G s) ≡ true
  unfolding are_places writes
  writes-are_places s = refl

  secret_places-are_removable : are_removable secret_places ≡ true
  unfolding are_removable
  secret_places-are_removable = refl

  -- A key that is written and not removed.
  pub value-stored :
      (group key : String) (s : InputSettings) (f : F) (raw : Bytes)
      → is_place group key ≡ true
      → removed group key secret_places ≡ false
      → written group key (writes G s) ≡ some raw
      → G.value (stored G s f) group key ≡ some raw
  unfolding stored prefer
  value-stored group key s f raw p kept w =
      value-remove_all group key secret_places (set_all G (writes G s) f) p
        secret_places-are_removable kept
      ∙ value-set_all group key (writes G s) f p (writes-are_places s)
      ∙ rw w refl

  -- What each way of reading makes of such a key.
  put : {A : Type 0} → (A → InputSettings → InputSettings) → A → Loaded → Loaded
  put set a l = record l { settings = set a l.settings }

  pub load_boolean_lem :
      (f : F) (group key : String) (set : Bool → InputSettings → InputSettings) (b : Bool)
      (l : Loaded)
      → G.value f group key ≡ some (G.print_boolean b)
      → load_boolean G f group key set l ≡ record l { settings = set b l.settings }
  unfolding load_boolean take_field decode
  load_boolean_lem f group key set b l h = rw (h, laws.parse_print_boolean b) refl

  pub load_integer_lem :
      (f : F) (low high : ℕ) (group key : String) (set : ℕ → InputSettings → InputSettings) (n : ℕ)
      (l : Loaded)
      → high ≤ max_integer
      → within low high n ≡ true
      → G.value f group key ≡ some (G.print_integer n)
      → load_integer G f low high group key set l ≡ record l { settings = set n l.settings }
  unfolding load_integer take_field decode then_read natural_within if_valid
  load_integer_lem f low high group key set n l m r h =
      rw (h, laws.parse_print_integer n (omega (arith, within-le low high n r, m)), r) refl

  pub load_string_lem :
      (f : F) (valid : Bytes → Bool) (group key : String)
      (set : Bytes → InputSettings → InputSettings) (v : Bytes) (l : Loaded)
      → K.utf8_validate v ≡ true
      → valid v ≡ true
      → G.value f group key ≡ some (G.escape v)
      → load_string G f valid group key set l ≡ record l { settings = set v l.settings }
  unfolding load_string take_field decode then_read if_valid
  load_string_lem f valid group key set v l u r h = rw (h, laws.unescape_escape v u, r) refl

  pub load_choice_lem :
      {A : Type 0}
      → (f : F) (parse : Bytes → Option A) (name : A → Bytes) (group key : String)
        (set : A → InputSettings → InputSettings) (a : A) (l : Loaded)
      → K.utf8_validate (name a) ≡ true
      → parse (name a) ≡ some a
      → G.value f group key ≡ some (G.escape (name a))
      → load_choice G f parse group key set l ≡ record l { settings = set a l.settings }
  unfolding load_choice take_field decode then_read
  load_choice_lem f parse name group key set a l u p h =
      rw (h, laws.unescape_escape (name a) u, p) refl
