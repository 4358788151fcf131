-- ===== src/Settings/Replace.antt =====
-- What a save does to the settings file (src/SettingsStore.cpp), whatever the system answers.
use msime_linux.Base.{
  ℕ, zero, suc, Bool, true, false, not, ◌&&◌, ◌||◌, Option, none, some, List, [], ◌∷◌, ◌++◌, Bytes,
  take, drop, ◌==◌, if◌then◌else◌, ◌≡◌, refl, ap, subst, ◌∙◌, if_intro, Bool-cases, inl, inr, arith,
}
use msime_linux.Settings.Types.{InputSettings}
use msime_linux.Settings.KeyFile.{KeyFile, KeyFileLaws}
use msime_linux.Settings.Valid.{Checks, valid_input_settings}
use msime_linux.Settings.Load.{load, nothing}
use msime_linux.Settings.Save.{stored}
use msime_linux.Settings.Stored.{ChecksLaws}
use msime_linux.Settings.RoundTrip.{persisted, load-stored}
use msime_linux.Settings.Disk.{
  ConfigFile, absent, irregular, regular, Disk, Written, wrote, interrupted, refused, System,
  SaveError, out_of_range, no_directory, Saved, failed, write_all, read_config, rescue, key_file_of,
  replace_config, write_serialized, write_settings, save_unlocked,
}

take-drop : (n : ℕ) (v : Bytes) → take n v ++ drop n v ≡ v
take-drop zero v = refl
take-drop (suc n) [] = refl
take-drop (suc n) (c ∷ v) = ap (λ w. c ∷ w) (take-drop n v)

-- When `write_all` reports success, all the bytes were written, in their order, however `write` cut
-- them up and however often it was interrupted.
pub write_all_lem :
    (answers : List Written) (v : Bytes)
    → (write_all answers v).0 ≡ true
    → (write_all answers v).1 ≡ v
unfolding write_all
write_all_lem [] [] h = refl
write_all_lem (a ∷ answers) [] h = refl
write_all_lem [] (c ∷ v) h = refl
write_all_lem (interrupted ∷ answers) (c ∷ v) h = write_all_lem answers (c ∷ v) h
write_all_lem (refused ∷ answers) (c ∷ v) h = absurd (cc h)
write_all_lem (wrote n ∷ answers) (c ∷ v) h = elim (Bool-cases (n == 0)) [
  | inl yes' ↦ absurd (cc (h, yes'))
  | inr no' ↦ rw (no', write_all_lem answers (drop n (c ∷ v)) (cc (h, no'))) (take-drop n (c ∷ v))
]

module _ {F : Type 0} (G : KeyFile F) where
  -- No text is lost: the file is as it was, or it could not be parsed and now stands under `.corrupt`.
  pub data Unharmed (d : Disk) (after : Disk) : Type 0 where
    same : after.config ≡ d.config → Unharmed d after
    put_aside :
        (bytes : Bytes)
        → d.config ≡ regular bytes
        → G.load_from_data bytes ≡ none
        → after.config ≡ absent
        → after.rescued ≡ some bytes
        → Unharmed d after

  Unharmed-same :
      (d d' after : Disk)
      → (after.config ≡ d'.config) × (after.rescued ≡ d'.rescued)
      → Unharmed d d'
      → Unharmed d after
  Unharmed-same d d' after (c, r) (same h) = same (c ∙ h)
  Unharmed-same d d' after (c, r) (put_aside bytes p q a b) = put_aside bytes p q (c ∙ a) (r ∙ b)

  rescue-Unharmed :
      (io : System) (d : Disk) (bytes : Bytes) (o : Option F)
      → d.config ≡ regular bytes
      → G.load_from_data bytes ≡ o
      → Unharmed d (rescue G io d bytes o).1
  unfolding rescue
  rescue-Unharmed io d bytes (some f) c h = same refl
  rescue-Unharmed io d bytes none c h = elim (Bool-cases io.renames_corrupt) [
    | inl yes' ↦ put_aside bytes c h (rw yes' refl) (rw yes' refl)
    | inr no' ↦ same (rw no' refl)
  ]

  key_file_of-Unharmed :
      (io : System) (d d' : Disk) (c : ConfigFile) (f : F)
      → d.config ≡ c
      → key_file_of G io d c ≡ some (f, d')
      → Unharmed d d'
  unfolding key_file_of
  key_file_of-Unharmed io d d' absent f c h = same (ground (arith, h))
  key_file_of-Unharmed io d d' irregular f c h = absurd (cc h)
  key_file_of-Unharmed io d d' (regular bytes) f c h = elim (Bool-cases io.reads) [
    | inl yes' ↦
        subst (λ x. Unharmed d x) (ground (arith, h, yes')) (rescue-Unharmed io d bytes _ c refl)
    | inr no' ↦ absurd (ground (arith, h, no'))
  ]

replace_config-failed :
    (digest_of : Bytes → Bytes) (io : System) (bytes : Bytes) (d : Disk) (e : SaveError)
    → (replace_config digest_of io bytes d).error ≡ some e
    → ((replace_config digest_of io bytes d).disk.config ≡ d.config)
      × ((replace_config digest_of io bytes d).disk.rescued ≡ d.rescued)
unfolding replace_config
replace_config-failed digest_of io bytes d e h = ground arith

write_serialized-failed :
    (digest_of : Bytes → Bytes) (io : System) (d : Disk) (o : Option Bytes) (e : SaveError)
    → (write_serialized digest_of io d o).error ≡ some e
    → ((write_serialized digest_of io d o).disk.config ≡ d.config)
      × ((write_serialized digest_of io d o).disk.rescued ≡ d.rescued)
unfolding write_serialized
write_serialized-failed digest_of io d none e h = (refl, refl)
write_serialized-failed digest_of io d (some bytes) e h =
    replace_config-failed digest_of io bytes d e h

module _ {F : Type 0} (G : KeyFile F) (K : Checks) (digest_of : Bytes → Bytes) where
  write_settings-Unharmed :
      (io : System) (s : InputSettings) (d : Disk) (o : Option (F × Disk)) (e : SaveError)
      → key_file_of G io d d.config ≡ o
      → (write_settings G digest_of io s d o).error ≡ some e
      → Unharmed G d (write_settings G digest_of io s d o).disk
  unfolding write_settings
  write_settings-Unharmed io s d none e k h = same refl
  write_settings-Unharmed io s d (some (f, d')) e k h =
      Unharmed-same G d d' _ (write_serialized-failed digest_of io d' _ e h)
        (key_file_of-Unharmed G io d d' d.config f refl k)

  -- The three ways a save can go.
  save_unlocked-cases :
      (io : System) (s : InputSettings) (d : Disk) (P : Saved → Type 0)
      → P (failed out_of_range d none)
      → P (failed no_directory d none)
      → (valid_input_settings K s ≡ true
          → P (write_settings G digest_of io s d (key_file_of G io d d.config)))
      → P (save_unlocked G K digest_of io s d)
  unfolding save_unlocked
  save_unlocked-cases io s d P range directory rest =
      if_intro P (not (valid_input_settings K s)) (failed out_of_range d none)
        (if not io.makes_directory
          then failed no_directory d none
          else write_settings G digest_of io s d (key_file_of G io d d.config))
        (λ b. range)
        (λ b.
          if_intro P (not io.makes_directory) (failed no_directory d none)
            (write_settings G digest_of io s d (key_file_of G io d d.config)) (λ c. directory)
            (λ c. rest (ground (arith, b))))

  -- A save that fails, at whatever step, loses no text: `config.ini` is as it was, unless it could
  -- not be parsed, and then its text may stand under `.corrupt` instead.
  pub save_unlocked-Unharmed :
      (io : System) (s : InputSettings) (d : Disk) (e : SaveError)
      → (save_unlocked G K digest_of io s d).error ≡ some e
      → Unharmed G d (save_unlocked G K digest_of io s d).disk
  save_unlocked-Unharmed io s d e =
      save_unlocked-cases io s d (λ r. r.error ≡ some e → Unharmed G d r.disk) (λ h. same refl)
        (λ h. same refl) (λ valid h. write_settings-Unharmed io s d _ e refl h)

replace_config-succeeded :
    (digest_of : Bytes → Bytes) (io : System) (bytes : Bytes) (d : Disk)
    → (replace_config digest_of io bytes d).error ≡ none
    → ((replace_config digest_of io bytes d).disk.config ≡ regular bytes)
      × ((replace_config digest_of io bytes d).digest ≡ some (digest_of bytes))
unfolding replace_config
replace_config-succeeded digest_of io bytes d =
    if_intro P (not io.creates) _ _ (λ b h. absurd (cc h))
      (λ b.
        if_intro P _ _ _ (λ c h. absurd (cc h))
          (λ c h. (
            ap regular (
                write_all_lem io.writes bytes
                  (all_written (write_all io.writes bytes).0 io.syncs io.closes io.replaces c)),
            refl,
          )))
  where
    P : Saved → Type 0
    P r = r.error ≡ none → (r.disk.config ≡ regular bytes) × (r.digest ≡ some (digest_of bytes))

    all_written :
        (w syncs closes replaces : Bool)
        → (not (w && syncs) || not closes || not replaces) ≡ false
        → w ≡ true
    all_written w syncs closes replaces h = ground (arith, h)

module _ {F : Type 0} (G : KeyFile F) (K : Checks) (digest_of : Bytes → Bytes) where
  -- The file that a save which succeeded has written: the settings, put over the key file that it
  -- started from.
  pub record Replaced (io : System) (s : InputSettings) (d : Disk) (r : Saved) : Type 0 where
    pub base : F
    pub from : Disk
    pub bytes : Bytes
    pub base_is : key_file_of G io d d.config ≡ some (base, from)
    pub serialized : G.to_data (stored G s base) ≡ some bytes
    pub config_is : r.disk.config ≡ regular bytes
    pub digest_is : r.digest ≡ some (digest_of bytes)

  write_serialized-Replaced :
      (io : System) (s : InputSettings) (d : Disk) (f : F) (d' : Disk) (o : Option Bytes)
      → key_file_of G io d d.config ≡ some (f, d')
      → G.to_data (stored G s f) ≡ o
      → (write_serialized digest_of io d' o).error ≡ none
      → Replaced io s d (write_serialized digest_of io d' o)
  unfolding write_serialized
  write_serialized-Replaced io s d f d' none k t h = absurd (cc h)
  write_serialized-Replaced io s d f d' (some bytes) k t h =
      let r = replace_config-succeeded digest_of io bytes d' h in
      record {
        base = f;
        from = d';
        bytes = bytes;
        base_is = k;
        serialized = t;
        config_is = r.0;
        digest_is = r.1;
      }

  write_settings-Replaced :
      (io : System) (s : InputSettings) (d : Disk) (o : Option (F × Disk))
      → key_file_of G io d d.config ≡ o
      → (write_settings G digest_of io s d o).error ≡ none
      → Replaced io s d (write_settings G digest_of io s d o)
  unfolding write_settings
  write_settings-Replaced io s d none k h = absurd (cc h)
  write_settings-Replaced io s d (some (f, d')) k h =
      write_serialized-Replaced io s d f d' _ k refl h

  -- A save reports success only when the file now holds the settings, in full.
  pub save_unlocked-Replaced :
      (io : System) (s : InputSettings) (d : Disk)
      → (save_unlocked G K digest_of io s d).error ≡ none
      → (valid_input_settings K s ≡ true) × Replaced io s d (save_unlocked G K digest_of io s d)
  save_unlocked-Replaced io s d =
      save_unlocked-cases G K digest_of io s d P (λ h. absurd (cc h)) (λ h. absurd (cc h))
        (λ valid h. (valid, write_settings-Replaced io s d _ refl h))
    where
      P : Saved → Type 0
      P r = r.error ≡ none → (valid_input_settings K s ≡ true) × Replaced io s d r

  module _ (glib : KeyFileLaws G K.utf8_validate) (laws : ChecksLaws K) where
    -- When GLib can parse the key file that it has written, a save that reports success is followed
    -- by a load that gives the settings back without a warning, whatever stood at the path before and
    -- however the system cut the writes up: all but the credentials, the facts about this run
    -- and the two timeouts of dictation (2500 and 8000 after the load), which the file does not hold.
    pub load-save_unlocked :
        (io : System) (s : InputSettings) (d : Disk)
        → ((f : F) (d' : Disk) (bytes : Bytes)
            → key_file_of G io d d.config ≡ some (f, d')
            → G.to_data (stored G s f) ≡ some bytes
            → G.load_from_data bytes ≡ some (stored G s f))
        → (save_unlocked G K digest_of io s d).error ≡ none
        → load G K (read_config true (save_unlocked G K digest_of io s d).disk.config)
          ≡ (persisted s, nothing)
    unfolding read_config
    load-save_unlocked io s d parses h =
        let v = save_unlocked-Replaced io s d h in
        rw (v.1.config_is) (
          load-stored G K glib laws s v.1.base v.1.bytes v.0
            (parses _ _ _ v.1.base_is v.1.serialized))
