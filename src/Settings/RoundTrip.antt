-- ===== src/Settings/RoundTrip.antt =====
-- Reading back what was stored (src/SettingsStore.cpp).
use msime_linux.Base.{
  ℕ, Bool, true, false, not, [], some, Bytes, is_empty, ◌≡◌, refl, arith, part-all_of,
}
use msime_linux.Settings.Types.{InputSettings, default_settings}
use msime_linux.Settings.KeyFile.{KeyFile, KeyFileLaws}
use msime_linux.Settings.Valid.{
  Checks, within, valid_utf8_text, valid_https_endpoint, valid_translation_language,
  valid_online_settings, valid_voice_settings, valid_input_settings, online_conditions,
  voice_conditions, input_conditions,
}
use msime_linux.Settings.Load.{nothing, nonempty_text, load_fields, load_parsed, load, contents}
use msime_linux.Settings.Save.{stored}
use msime_linux.Settings.Stored.{ChecksLaws}
use msime_linux.Settings.Groups.{
  load_modes-stored, load_typing-stored, load_helpcodes-stored, load_frequency-stored,
  load_candidates-stored, load_online-stored, load_ai-stored, load_translation-stored,
  load_utilities-stored, load_shortcuts-stored, load_voice-stored,
}

-- What the file keeps of some settings: neither the credentials nor the facts about this run nor
-- the two timeouts of dictation, which have no key and are 2500 and 8000 after every load.
unfoldable pub persisted : InputSettings → InputSettings
persisted s = record s {
  voice = record s.voice { token = []; connect_timeout = 2500; total_timeout = 8000 };
  voice_credential_available = true;
  voice_credential_cleared = false;
  online = record s.online {
    ai = record s.online.ai { token = [] };
    translation_token = [];
    ai_credential_available = true;
    translation_credential_available = true;
    ai_credential_cleared = false;
    translation_credential_cleared = false;
  };
}

nonempty_text_lem :
    (K : Checks) (maximum : ℕ) (newlines : Bool) (v : Bytes)
    → valid_utf8_text K maximum newlines v ≡ true
    → not (is_empty v) ≡ true
    → nonempty_text K maximum newlines v ≡ true
unfolding nonempty_text
nonempty_text_lem K maximum newlines v h e = ground (arith, h, e)

module _ (K : Checks) where
  -- The conditions of `valid_input_settings` that bear on single fields.
  pub record FieldsAreValid (s : InputSettings) : Type 0 where
    pub page_size_valid : (within 3 9 s.page_size) ≡ true
    pub quanpin_helpcode_schema_valid :
        (K.is_supported_helpcode_schema s.quanpin_helpcode_schema) ≡ true
    pub shuangpin_helpcode_schema_valid :
        (K.is_supported_helpcode_schema s.shuangpin_helpcode_schema) ≡ true
    pub frequency_trigger_count_valid : (within 1 10 s.frequency_trigger_count) ≡ true
    pub frequency_linear_step_valid : (within 1 10 s.frequency_linear_step) ≡ true
    pub mixed_english_minimum_prefix_valid : (within 1 8 s.mixed_english_minimum_prefix) ≡ true
    pub online_connect_timeout_valid : (within 100 10000 s.online.connect_timeout) ≡ true
    pub online_total_timeout_valid : (within 500 30000 s.online.total_timeout) ≡ true
    pub online_ai_endpoint_valid : (valid_https_endpoint K s.online.ai.endpoint) ≡ true
    pub online_ai_model_valid : (valid_utf8_text K 256 false s.online.ai.model) ≡ true
    pub online_ai_prompt_valid : (valid_utf8_text K 8192 true s.online.ai.prompt) ≡ true
    pub online_ai_candidate_limit_valid : (within 1 10 s.online.ai.candidate_limit) ≡ true
    pub online_translation_target_language_valid :
        (valid_translation_language s.online.translation_target_language) ≡ true
    pub online_translation_endpoint_valid :
        (valid_https_endpoint K s.online.translation_endpoint) ≡ true
    pub voice_provider_valid : (nonempty_text K 64 false s.voice.provider) ≡ true
    pub voice_endpoint_valid : (valid_https_endpoint K s.voice.endpoint) ≡ true
    pub voice_model_valid : (nonempty_text K 256 false s.voice.model) ≡ true
    pub voice_language_valid : (nonempty_text K 32 false s.voice.language) ≡ true
    pub voice_polish_endpoint_valid : (valid_https_endpoint K s.voice.polish_endpoint) ≡ true
    pub voice_polish_model_valid : (nonempty_text K 256 false s.voice.polish_model) ≡ true
    pub voice_polish_prompt_valid : (nonempty_text K 8192 true s.voice.polish_prompt) ≡ true

  pub valid-FieldsAreValid :
      (s : InputSettings) → valid_input_settings K s ≡ true → FieldsAreValid s
  unfolding valid_input_settings valid_online_settings valid_voice_settings input_conditions
      online_conditions voice_conditions
  valid-FieldsAreValid s h = record {
    page_size_valid = part-all_of (input_conditions K s) 0 h;
    quanpin_helpcode_schema_valid = part-all_of (input_conditions K s) 1 h;
    shuangpin_helpcode_schema_valid = part-all_of (input_conditions K s) 2 h;
    frequency_trigger_count_valid = part-all_of (input_conditions K s) 3 h;
    frequency_linear_step_valid = part-all_of (input_conditions K s) 4 h;
    mixed_english_minimum_prefix_valid = part-all_of (input_conditions K s) 5 h;
    online_connect_timeout_valid =
        part-all_of (online_conditions K s.online) 6 (part-all_of (input_conditions K s) 6 h);
    online_total_timeout_valid =
        part-all_of (online_conditions K s.online) 7 (part-all_of (input_conditions K s) 6 h);
    online_ai_endpoint_valid =
        part-all_of (online_conditions K s.online) 0 (part-all_of (input_conditions K s) 6 h);
    online_ai_model_valid =
        part-all_of (online_conditions K s.online) 1 (part-all_of (input_conditions K s) 6 h);
    online_ai_prompt_valid =
        part-all_of (online_conditions K s.online) 2 (part-all_of (input_conditions K s) 6 h);
    online_ai_candidate_limit_valid =
        part-all_of (online_conditions K s.online) 3 (part-all_of (input_conditions K s) 6 h);
    online_translation_target_language_valid =
        part-all_of (online_conditions K s.online) 4 (part-all_of (input_conditions K s) 6 h);
    online_translation_endpoint_valid =
        part-all_of (online_conditions K s.online) 5 (part-all_of (input_conditions K s) 6 h);
    voice_provider_valid =
        nonempty_text_lem K 64 false _
          (part-all_of (voice_conditions K s.voice) 0 (part-all_of (input_conditions K s) 7 h))
          (part-all_of (voice_conditions K s.voice) 1 (part-all_of (input_conditions K s) 7 h));
    voice_endpoint_valid =
        part-all_of (voice_conditions K s.voice) 2 (part-all_of (input_conditions K s) 7 h);
    voice_model_valid =
        nonempty_text_lem K 256 false _
          (part-all_of (voice_conditions K s.voice) 3 (part-all_of (input_conditions K s) 7 h))
          (part-all_of (voice_conditions K s.voice) 4 (part-all_of (input_conditions K s) 7 h));
    voice_language_valid =
        nonempty_text_lem K 32 false _
          (part-all_of (voice_conditions K s.voice) 5 (part-all_of (input_conditions K s) 7 h))
          (part-all_of (voice_conditions K s.voice) 6 (part-all_of (input_conditions K s) 7 h));
    voice_polish_endpoint_valid =
        part-all_of (voice_conditions K s.voice) 8 (part-all_of (input_conditions K s) 7 h);
    voice_polish_model_valid =
        nonempty_text_lem K 256 false _
          (part-all_of (voice_conditions K s.voice) 9 (part-all_of (input_conditions K s) 7 h))
          (part-all_of (voice_conditions K s.voice) 10 (part-all_of (input_conditions K s) 7 h));
    voice_polish_prompt_valid =
        nonempty_text_lem K 8192 true _
          (part-all_of (voice_conditions K s.voice) 11 (part-all_of (input_conditions K s) 7 h))
          (part-all_of (voice_conditions K s.voice) 12 (part-all_of (input_conditions K s) 7 h));
  }

module _ {F : Type 0} (G : KeyFile F) (K : Checks) (glib : KeyFileLaws G K.utf8_validate)
    (laws : ChecksLaws K) where
  load_fields-stored :
      (s : InputSettings) (f : F)
      → FieldsAreValid K s
      → load_fields G K (stored G s f) (record { settings = default_settings; invalid = false })
        ≡ record { settings = persisted s; invalid = false }
  unfolding load_fields persisted
  load_fields-stored s f v =
      rw
        (
          load_modes-stored G K glib laws s f _ v.page_size_valid,
          load_typing-stored G K glib laws s f _,
          load_helpcodes-stored G K glib laws s f _ v.quanpin_helpcode_schema_valid
              v.shuangpin_helpcode_schema_valid,
          load_frequency-stored G K glib laws s f _ v.frequency_trigger_count_valid
              v.frequency_linear_step_valid,
          load_candidates-stored G K glib laws s f _ v.mixed_english_minimum_prefix_valid,
          load_online-stored G K glib laws s f _ v.online_connect_timeout_valid
              v.online_total_timeout_valid,
          load_ai-stored G K glib laws s f _ v.online_ai_endpoint_valid v.online_ai_model_valid
              v.online_ai_prompt_valid v.online_ai_candidate_limit_valid,
          load_translation-stored G K glib laws s f _ v.online_translation_target_language_valid
              v.online_translation_endpoint_valid,
          load_utilities-stored G K glib laws s f _,
          load_shortcuts-stored G K glib laws s f _,
          load_voice-stored G K glib laws s f _ v.voice_provider_valid v.voice_endpoint_valid
              v.voice_model_valid v.voice_language_valid v.voice_polish_endpoint_valid
              v.voice_polish_model_valid v.voice_polish_prompt_valid,
        )
        refl

  -- Settings that the store accepts come back from the file as they were, without a warning, but for
  -- the credentials, the facts about this run and the two timeouts of dictation (2500 and 8000 after
  -- the load), which the file does not hold, and whatever else the file held before. What is asked
  -- of GLib is what it documents of key files, on valid names, valid UTF-8 and the range of `gint`.
  pub load-stored :
      (s : InputSettings) (f : F) (bytes : Bytes)
      → valid_input_settings K s ≡ true
      → G.load_from_data bytes ≡ some (stored G s f)
      → load G K (contents bytes) ≡ (persisted s, nothing)
  unfolding load load_parsed
  load-stored s f bytes valid read =
      rw (read, load_fields-stored s f (valid-FieldsAreValid K s valid)) refl
