-- ===== src/Settings/EditKeeps.antt =====
-- What an edit does to settings that the store accepts (src/SettingsUiModel.cpp).
use msime_linux.Base.{
  Bool, true, false, not, ◌&&◌, ◌||◌, Bytes, is_empty, if◌then◌else◌, ◌≡◌, refl, if_intro,
}
use Prim.Native.String.{String}
use text.Mathlib.Text.{◌==◌}
use msime_linux.Online.Endpoint.{token_allowed}
use msime_linux.Settings.Types.{InputSettings}
use msime_linux.Settings.Valid.{
  Checks, is_member, valid_utf8_text, valid_https_endpoint, valid_online_settings,
  valid_voice_settings, valid_input_settings, online_conditions, voice_conditions, input_conditions,
}
use msime_linux.Settings.Stored.{ChecksLaws}
use msime_linux.Settings.Parse.{parse_bool}
use msime_linux.Settings.Edit.{
  Edit, accepted, rejected, accept_if, helpcode_schemas, set_boolean, edit_numbers, edit_providers,
  after, invalid_value, empty_while_enabled, empty_value, text_accepted, is_required,
  is_required_while_enabled, set_text, texts, edit_text, is_text, maximum_of, is_endpoint, is_model,
  credential_characters, clearings, clear_translation, set_cleared, credentials, enter_translation,
  set_credential, edit_credential, is_cleared_row, is_credential_row, is_boolean, edit_online, edit,
}
use msime_linux.Settings.EditLemmas.{
  each_none, each_one, named_none, named_one, select-has, is_any-has, text_within, endpoint_within,
  not-false, needed, voice_needed, polish_needed,
}
use msime_linux.Settings.EditRows.{
  Valid, Keeps, replace_online, replace_voice, accept, rejected_keeps, token_dropped,
  ai_token_allowed, translation_token_allowed, voice_token_allowed, set_boolean-Valid,
  edit_modes-Keeps, edit_numbers-Keeps, edit_providers-Keeps,
}

module _ (K : Checks) (laws : ChecksLaws K)
    (schemas : (v : Bytes)
      → is_member v helpcode_schemas ≡ true
      → K.is_supported_helpcode_schema v ≡ true)
    (s : InputSettings) (valid : valid_input_settings K s ≡ true) where
  text_keeps :
      (id : String) (v : Bytes)
      → (text_accepted K id v ≡ true
          → (is_empty v && (is_required id || is_required_while_enabled id s)) ≡ false
          → (Valid K laws schemas s valid) (set_text id v s))
      → (Keeps K laws schemas s valid) (edit_text K id v s)
  unfolding edit_text Keeps Valid after
  text_keeps id v h =
      if_intro (λ (e : Edit). (Valid K laws schemas s valid) (after e s))
        (not (text_accepted K id v)) (rejected invalid_value)
        (if is_empty v && (is_required id || is_required_while_enabled id s)
          then rejected
              (if is_required_while_enabled id s then empty_while_enabled else empty_value)
          else accepted (set_text id v s))
        (λ b. valid)
        (λ a.
          if_intro (λ (e : Edit). (Valid K laws schemas s valid) (after e s))
            (is_empty v && (is_required id || is_required_while_enabled id s))
            (rejected (if is_required_while_enabled id s then empty_while_enabled else empty_value))
            (accepted (set_text id v s)) (λ b. valid) (λ b. h (not-false _ a) b))

  edit_text-Keeps :
      (id : String) (v : Bytes)
      → is_text id ≡ true
      → (Keeps K laws schemas s valid) (edit_text K id v s)
  unfolding is_text text_accepted maximum_of is_endpoint is_model is_required
      is_required_while_enabled set_text texts input_conditions online_conditions voice_conditions
      valid_online_settings valid_voice_settings
  edit_text-Keeps id v h =
      is_any-has (λ id. (Keeps K laws schemas s valid) (edit_text K id v s)) _ id
        (named_one
          (text_keeps "ai-endpoint" v (λ a b.
            (replace_online K laws schemas s valid) _ 0 (valid_https_endpoint K v)
              (endpoint_within K v a) refl))
          (named_one
            (text_keeps "ai-model" v (λ a b.
              (replace_online K laws schemas s valid) _ 1 (valid_utf8_text K 256 false v)
                (text_within K 256 false _ v a) refl))
            (named_one
              (text_keeps "ai-prompt" v (λ a b.
                (replace_online K laws schemas s valid) _ 2 (valid_utf8_text K 8192 true v)
                  (text_within K 8192 true _ v a) refl))
              (named_one
                (text_keeps "translation-endpoint" v (λ a b.
                  (replace_online K laws schemas s valid) _ 5 (valid_https_endpoint K v)
                    (endpoint_within K v a) refl))
                (named_one
                  (text_keeps "voice-endpoint" v (λ a b.
                    (replace_voice K laws schemas s valid) _ 2 7 (valid_https_endpoint K v)
                      (not s.voice.enabled || not (is_empty v)) (endpoint_within K v a)
                      (voice_needed (is_empty v) s.voice.enabled b) refl))
                  (named_one
                    (text_keeps "voice-model" v (λ a b.
                      (replace_voice K laws schemas s valid) _ 3 4 (valid_utf8_text K 256 false v)
                        (not (is_empty v)) (text_within K 256 false _ v a) (needed (is_empty v) b)
                        refl))
                    (named_one
                      (text_keeps "voice-language" v (λ a b.
                        (replace_voice K laws schemas s valid) _ 5 6 (valid_utf8_text K 32 false v)
                          (not (is_empty v)) (text_within K 32 false _ v a) (needed (is_empty v) b)
                          refl))
                      (named_one
                        (text_keeps "voice-polish-endpoint" v (λ a b.
                          (replace_voice K laws schemas s valid) _ 8 13 (valid_https_endpoint K v)
                            (not s.voice.polish_enabled || not (is_empty v)) (endpoint_within K v a)
                            (polish_needed (is_empty v) s.voice.polish_enabled b) refl))
                        (named_one
                          (text_keeps "voice-polish-model" v (λ a b.
                            (replace_voice K laws schemas s valid) _ 9 10
                              (valid_utf8_text K 256 false v) (not (is_empty v))
                              (text_within K 256 false _ v a) (needed (is_empty v) b) refl))
                          (named_one
                            (text_keeps "voice-polish-prompt" v (λ a b.
                              (replace_voice K laws schemas s valid) _ 11 12
                                (valid_utf8_text K 8192 true v) (not (is_empty v))
                                (text_within K 8192 true _ v a) (needed (is_empty v) b) refl))
                            (named_none)))))))))))
        h

  set_cleared-Valid : (id : String) (b : Bool) → (Valid K laws schemas s valid) (set_cleared id b s)
  unfolding set_cleared clearings input_conditions online_conditions voice_conditions
      valid_online_settings valid_voice_settings
  set_cleared-Valid id b =
      select-has (Valid K laws schemas s valid) (clearings b s) id (clear_translation b s)
        (each_one
          (λ h.
            (replace_online K laws schemas s valid) _ 8 _
              ((token_dropped K laws schemas s valid) b s.online.ai.token
                (ai_token_allowed K laws schemas s valid))
              refl)
          (each_one
            (λ h.
              (replace_voice K laws schemas s valid) _ 14 14 _ _
                ((token_dropped K laws schemas s valid) b s.voice.token
                  (voice_token_allowed K laws schemas s valid))
                ((token_dropped K laws schemas s valid) b s.voice.token
                  (voice_token_allowed K laws schemas s valid))
                refl)
            each_none))
        ((replace_online K laws schemas s valid) _ 9 _
          ((token_dropped K laws schemas s valid) b s.online.translation_token
            (translation_token_allowed K laws schemas s valid))
          refl)

  set_credential-Valid :
      (id : String) (v : Bytes)
      → token_allowed v ≡ true
      → (Valid K laws schemas s valid) (set_credential id v s)
  unfolding set_credential credentials input_conditions online_conditions voice_conditions
      valid_online_settings valid_voice_settings
  set_credential-Valid id v t =
      select-has (Valid K laws schemas s valid) (credentials v s) id (enter_translation v s)
        (each_one (λ h. (replace_online K laws schemas s valid) _ 8 _ t refl)
          (each_one (λ h. (replace_voice K laws schemas s valid) _ 14 14 _ _ t t refl) each_none))
        ((replace_online K laws schemas s valid) _ 9 _ t refl)

  edit_credential-Keeps :
      (id : String) (v : Bytes) → (Keeps K laws schemas s valid) (edit_credential id v s)
  unfolding edit_credential Keeps Valid after
  edit_credential-Keeps id v =
      if_intro (λ (e : Edit). (Valid K laws schemas s valid) (after e s)) (not (token_allowed v))
        (rejected credential_characters)
        (if is_empty v then accepted s else accepted (set_credential id v s)) (λ b. valid)
        (λ b.
          if_intro (λ (e : Edit). (Valid K laws schemas s valid) (after e s)) (is_empty v)
            (accepted s) (accepted (set_credential id v s)) (λ c. valid)
            (λ c. set_credential-Valid id v (not-false _ b)))

  edit_online-Keeps :
      (id : String) (v : Bytes) → (Keeps K laws schemas s valid) (edit_online K id v s)
  unfolding edit_online
  edit_online-Keeps id v =
      if_intro (Keeps K laws schemas s valid) (is_cleared_row id)
        (accept_if (parse_bool v) (λ b. set_cleared id b s))
        (if is_credential_row id
          then edit_credential id v s
          else if is_text id
          then edit_text K id v s
          else rejected invalid_value)
        (λ h. (accept K laws schemas s valid) _ _ (λ b e. set_cleared-Valid id b))
        (λ h.
          if_intro (Keeps K laws schemas s valid) (is_credential_row id) (edit_credential id v s)
            (if is_text id then edit_text K id v s else rejected invalid_value)
            (λ c. edit_credential-Keeps id v)
            (λ c.
              if_intro (Keeps K laws schemas s valid) (is_text id) (edit_text K id v s)
                (rejected invalid_value) (edit_text-Keeps id v)
                (λ t. (rejected_keeps K laws schemas s valid) invalid_value)))

-- Editing settings that the store accepts gives settings that it accepts, whatever the row and the
-- value, so that the save at the end is not refused; but for the two switches that turn voice input
-- and its polishing on, which do not ask for an endpoint. GLib takes ASCII for UTF-8, and the
-- library supports the helpcode schemas that the window offers.
pub edit-valid_input_settings :
    (K : Checks) (s : InputSettings) (id : String) (v : Bytes)
    → ChecksLaws K
    → ((a : Bytes) → is_member a helpcode_schemas ≡ true → K.is_supported_helpcode_schema a ≡ true)
    → valid_input_settings K s ≡ true
    → (id == "voice-enabled") ≡ false
    → (id == "voice-polish-enabled") ≡ false
    → valid_input_settings K (after (edit K id v s) s) ≡ true
unfolding edit Keeps Valid
edit-valid_input_settings K s id v laws schemas valid voice polish =
    edit_modes-Keeps K laws schemas s valid id v _ (
      if_intro (Keeps K laws schemas s valid) (is_boolean id)
        (accept_if (parse_bool v) (λ b. set_boolean id b s))
        (edit_numbers id v s (edit_providers id v s (edit_online K id v s)))
        (λ h.
          accept K laws schemas s valid _ _
            (λ b e. set_boolean-Valid K laws schemas s valid id b voice polish))
        (λ h. edit_numbers-Keeps K laws schemas s valid id v _ (
          edit_providers-Keeps K laws schemas s valid id v _
            (edit_online-Keeps K laws schemas s valid id v))))
