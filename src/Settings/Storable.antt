-- ===== src/Settings/Storable.antt =====
-- Whatever the file holds, the settings that are read can be stored (src/SettingsStore.cpp).
mod Typing
mod Candidates
mod Online
mod Voice
use msime_linux.Base.{
  ℕ, Bool, true, false, not, ◌&&◌, ◌||◌, Option, some, none, Bytes, is_empty, if◌then◌else◌, ◌≡◌,
  refl, ◌∙◌, sym, ap, arith, Bool-cases, inl, inr, all_of, part, set, part-all_of, all_of-set,
}
use Prim.Native.String.{String}
use msime_linux.Settings.Types.{InputSettings, default_settings}
use msime_linux.Settings.KeyFile.{ℤ, pos, negsuc, KeyFile}
use msime_linux.Settings.Valid.{
  Checks, within, valid_utf8_text, valid_https_endpoint, valid_translation_language,
  valid_online_settings, valid_voice_settings, valid_input_settings, online_conditions,
  voice_conditions, input_conditions,
}
use msime_linux.Settings.Names.{
  parse_mode, parse_scheme, parse_punctuation_lock, parse_punctuation, parse_preedit_style,
  parse_candidate_window_layout, parse_frequency_adjustment, parse_ai_provider,
  parse_translation_provider,
}
use msime_linux.Settings.Fields.{nonempty_text-valid}
use msime_linux.Settings.Load.{
  Loaded, FileRead, take_field, decode, then_read, if_valid, natural_within, nonempty_text,
  width_of, load_boolean, load_integer, load_string, load_choice, load_modes, load_typing,
  load_helpcodes, load_frequency, load_candidates, load_online, load_ai, load_translation,
  load_utilities, load_shortcuts, load_voice, load_fields, load_parsed, load, contents, missing,
  unreadable,
}
use msime_linux.Settings.Keeps.{
  silenced, Storable, boolean-keeps, choice-keeps, integer-keeps, string-keeps,
  nonempty_text_nonempty,
}
use msime_linux.Settings.Storable.Typing.{
  load_modes-Storable, load_typing-Storable, load_helpcodes-Storable,
}
use msime_linux.Settings.Storable.Candidates.{
  load_frequency-Storable, load_candidates-Storable, load_online-Storable,
}
use msime_linux.Settings.Storable.Online.{load_ai-Storable, load_translation-Storable}
use msime_linux.Settings.Storable.Voice.{
  load_utilities-Storable, load_shortcuts-Storable, load_voice-Storable,
}

module _ {F : Type 0} (G : KeyFile F) (K : Checks) (f : F) where
  load_fields-Storable :
      (l : Loaded) → Storable G K f l.settings → Storable G K f (load_fields G K f l).settings
  unfolding load_fields
  load_fields-Storable l h =
      load_voice-Storable G K f
        (load_shortcuts G K f (
          load_utilities G K f (
            load_translation G K f (
              load_ai G K f (
                load_online G K f (
                  load_candidates G K f (
                    load_frequency G K f
                      (load_helpcodes G K f (load_typing G K f (load_modes G K f l))))))))))
        (load_shortcuts-Storable G K f
          (load_utilities G K f (
            load_translation G K f (
              load_ai G K f (
                load_online G K f (
                  load_candidates G K f (
                    load_frequency G K f
                      (load_helpcodes G K f (load_typing G K f (load_modes G K f l)))))))))
          (load_utilities-Storable G K f
            (load_translation G K f (
              load_ai G K f (
                load_online G K f (
                  load_candidates G K f (
                    load_frequency G K f
                      (load_helpcodes G K f (load_typing G K f (load_modes G K f l))))))))
            (load_translation-Storable G K f
              (load_ai G K f (
                load_online G K f (
                  load_candidates G K f (
                    load_frequency G K f
                      (load_helpcodes G K f (load_typing G K f (load_modes G K f l)))))))
              (load_ai-Storable G K f
                (load_online G K f (
                  load_candidates G K f (
                    load_frequency G K f
                      (load_helpcodes G K f (load_typing G K f (load_modes G K f l))))))
                (load_online-Storable G K f
                  (load_candidates G K f (
                    load_frequency G K f
                      (load_helpcodes G K f (load_typing G K f (load_modes G K f l)))))
                  (load_candidates-Storable G K f
                    (load_frequency G K f
                      (load_helpcodes G K f (load_typing G K f (load_modes G K f l))))
                    (load_frequency-Storable G K f
                      (load_helpcodes G K f (load_typing G K f (load_modes G K f l)))
                      (load_helpcodes-Storable G K f (load_typing G K f (load_modes G K f l)) (
                        load_typing-Storable G K f (load_modes G K f l)
                          (load_modes-Storable G K f l h))))))))))

module _ {F : Type 0} (G : KeyFile F) (K : Checks) where
  load_parsed-Storable :
      (r : Option F)
      → valid_input_settings K default_settings ≡ true
      → valid_input_settings K (silenced (load_parsed G K r).0) ≡ true
  unfolding load_parsed silenced Storable
  load_parsed-Storable none d = d
  load_parsed-Storable (some f) d =
      load_fields-Storable G K f (record { settings = default_settings; invalid = false }) d

  -- When the default settings are valid, whatever reading the file gives, the settings that `load`
  -- returns are valid once voice input and its polishing are switched off.
  pub load-Storable :
      (r : FileRead)
      → valid_input_settings K default_settings ≡ true
      → valid_input_settings K (silenced (load G K r).0) ≡ true
  unfolding load silenced
  load-Storable missing d = d
  load-Storable unreadable d = d
  load-Storable (contents bytes) d = load_parsed-Storable (G.load_from_data bytes) d
