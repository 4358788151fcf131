-- ===== src/Settings/Conflict.antt =====
-- Saving only when nobody else has changed the file (`save_if_unchanged` of src/SettingsStore.cpp).
use msime_linux.Base.{
  Bool, true, false, not, Option, none, some, Bytes, bytes_eq_iff, if◌then◌else◌, ◌≡◌, ◌⊎◌, refl,
  ap, if_intro, inl, inr, arith,
}
use msime_linux.Settings.Types.{InputSettings}
use msime_linux.Settings.KeyFile.{KeyFile}
use msime_linux.Settings.Valid.{Checks, valid_input_settings}
use msime_linux.Settings.Disk.{
  Disk, System, out_of_range, cannot_lock, changed, Version, no_file, digest_of_file, version,
  version_eq,
}
use msime_linux.Settings.Secrets.{SecretStore}
use msime_linux.Settings.Commit.{
  Committed, untouched, is_version, save_with_secrets_unlocked, save_if_unchanged,
}

version_eq_lem : (a b : Version) → version_eq a b ≡ true → a ≡ b
unfolding version_eq
version_eq_lem no_file no_file h = refl
version_eq_lem (digest_of_file d) (digest_of_file e) h = ap digest_of_file ((bytes_eq_iff d e).0 h)
version_eq_lem no_file (digest_of_file e) h = absurd (cc h)
version_eq_lem (digest_of_file d) no_file h = absurd (cc h)

is_version_lem : (o : Option Version) (v : Version) → is_version o v ≡ true → o ≡ some v
unfolding is_version
is_version_lem none v h = absurd (cc h)
is_version_lem (some w) v h = ap some (version_eq_lem w v h)

module _ {X : Type 0} {F : Type 0} (V : SecretStore X) (G : KeyFile F) (K : Checks)
    (digest_of : Bytes → Bytes) where
  -- A save on condition of a version touches neither the credentials nor the file unless the file
  -- has that version: it is missing, or its digest is the expected one.
  pub save_if_unchanged-untouched :
      (io : System) (s : InputSettings) (expected : Version) (x : X) (d : Disk)
      → (version digest_of io d ≡ some expected)
        ⊎ (((save_if_unchanged V G K digest_of io s expected x d).secrets ≡ x)
            × ((save_if_unchanged V G K digest_of io s expected x d).disk ≡ d))
  unfolding save_if_unchanged
  save_if_unchanged-untouched io s expected x d =
      let save : Committed X = save_with_secrets_unlocked V G K digest_of io s x d in
      let checked : Committed X =
        if not (is_version (version digest_of io d) expected)
        then untouched changed x d
        else save in
      let locked : Committed X = if not io.locks then untouched cannot_lock x d else checked in
      if_intro Untouched (not (valid_input_settings K s)) (untouched out_of_range x d) locked
        (λ b. inr (refl, refl))
        (λ b.
          if_intro Untouched (not io.locks) (untouched cannot_lock x d) checked
            (λ c. inr (refl, refl))
            (λ c.
              if_intro Untouched (not (is_version (version digest_of io d) expected))
                (untouched changed x d) save (λ e. inr (refl, refl))
                (λ e. inl (is_version_lem _ expected (holds _ e)))))
    where
      Untouched : Committed X → Type 0
      Untouched c = (version digest_of io d ≡ some expected) ⊎ ((c.secrets ≡ x) × (c.disk ≡ d))

      holds : (b : Bool) → not b ≡ false → b ≡ true
      holds b h = ground (arith, h)
