-- ===== src/Settings/Groups/Voice.antt =====
-- These groups of keys are read back as they were stored (src/SettingsStore.cpp).
use msime_linux.Base.{true, false, ◌≡◌, refl}
use msime_linux.Settings.Types.{InputSettings}
use msime_linux.Settings.KeyFile.{KeyFile, KeyFileLaws}
use msime_linux.Settings.Valid.{Checks, valid_https_endpoint}
use msime_linux.Settings.Load.{Loaded, nonempty_text, load_utilities, load_shortcuts, load_voice}
use msime_linux.Settings.Save.{writes, stored}
use msime_linux.Settings.Stored.{
  ChecksLaws, removed, written, value-stored, load_boolean_lem, load_string_lem,
}
use msime_linux.Settings.Ascii.{utf8_of_text, utf8_of_endpoint}
use msime_linux.Settings.Fields.{nonempty_text-valid}

module _ {F : Type 0} (G : KeyFile F) (K : Checks) (glib : KeyFileLaws G K.utf8_validate)
    (laws : ChecksLaws K) (s : InputSettings) (f : F) where
  pub load_utilities-stored :
      (l : Loaded)
      → load_utilities G K (stored G s f) l ≡ record l {
        settings = record l.settings {
          quick_phrase_mode_enabled = s.quick_phrase_mode_enabled;
          date_time_mode_enabled = s.date_time_mode_enabled;
          emoji_mode_enabled = s.emoji_mode_enabled;
          kaomoji_mode_enabled = s.kaomoji_mode_enabled;
          clipboard_history_enabled = s.clipboard_history_enabled;
          floating_toolbar_enabled = s.floating_toolbar_enabled;
        };
      }
  unfolding load_utilities removed written writes
  load_utilities-stored l =
      rw
        (
          load_boolean_lem G K glib (stored G s f) "utility" "quick-phrase-mode"
              (λ v s. record s { quick_phrase_mode_enabled = v }) s.quick_phrase_mode_enabled _
              (value-stored G K glib "utility" "quick-phrase-mode" s f _ refl refl refl),
          load_boolean_lem G K glib (stored G s f) "utility" "date-time-mode"
              (λ v s. record s { date_time_mode_enabled = v }) s.date_time_mode_enabled _
              (value-stored G K glib "utility" "date-time-mode" s f _ refl refl refl),
          load_boolean_lem G K glib (stored G s f) "utility" "emoji-mode"
              (λ v s. record s { emoji_mode_enabled = v }) s.emoji_mode_enabled _
              (value-stored G K glib "utility" "emoji-mode" s f _ refl refl refl),
          load_boolean_lem G K glib (stored G s f) "utility" "kaomoji-mode"
              (λ v s. record s { kaomoji_mode_enabled = v }) s.kaomoji_mode_enabled _
              (value-stored G K glib "utility" "kaomoji-mode" s f _ refl refl refl),
          load_boolean_lem G K glib (stored G s f) "utility" "clipboard-history"
              (λ v s. record s { clipboard_history_enabled = v }) s.clipboard_history_enabled _
              (value-stored G K glib "utility" "clipboard-history" s f _ refl refl refl),
          load_boolean_lem G K glib (stored G s f) "utility" "floating-toolbar"
              (λ v s. record s { floating_toolbar_enabled = v }) s.floating_toolbar_enabled _
              (value-stored G K glib "utility" "floating-toolbar" s f _ refl refl refl),
        )
        refl

  pub load_shortcuts-stored :
      (l : Loaded)
      → load_shortcuts G K (stored G s f) l ≡ record l {
        settings = record l.settings {
          show_quanpin_helpcode_in_candidates = s.show_quanpin_helpcode_in_candidates;
          show_shuangpin_helpcode_in_candidates = s.show_shuangpin_helpcode_in_candidates;
          switch_language_shift = s.switch_language_shift;
          switch_language_ctrl = s.switch_language_ctrl;
          switch_language_ctrl_alt_space = s.switch_language_ctrl_alt_space;
        };
      }
  unfolding load_shortcuts removed written writes
  load_shortcuts-stored l =
      rw
        (
          load_boolean_lem G K glib (stored G s f) "input" "show-quanpin-helpcode"
              (λ v s. record s { show_quanpin_helpcode_in_candidates = v })
              s.show_quanpin_helpcode_in_candidates _
              (value-stored G K glib "input" "show-quanpin-helpcode" s f _ refl refl refl),
          load_boolean_lem G K glib (stored G s f) "input" "show-shuangpin-helpcode"
              (λ v s. record s { show_shuangpin_helpcode_in_candidates = v })
              s.show_shuangpin_helpcode_in_candidates _
              (value-stored G K glib "input" "show-shuangpin-helpcode" s f _ refl refl refl),
          load_boolean_lem G K glib (stored G s f) "keybindings" "switch-language-shift"
              (λ v s. record s { switch_language_shift = v }) s.switch_language_shift _
              (value-stored G K glib "keybindings" "switch-language-shift" s f _ refl refl refl),
          load_boolean_lem G K glib (stored G s f) "keybindings" "switch-language-ctrl"
              (λ v s. record s { switch_language_ctrl = v }) s.switch_language_ctrl _
              (value-stored G K glib "keybindings" "switch-language-ctrl" s f _ refl refl refl),
          load_boolean_lem G K glib (stored G s f) "keybindings" "switch-language-ctrl-alt-space"
              (λ v s. record s { switch_language_ctrl_alt_space = v })
              s.switch_language_ctrl_alt_space _
              (value-stored G K glib "keybindings" "switch-language-ctrl-alt-space" s f _ refl refl
                refl),
        )
        refl

  pub load_voice-stored :
      (l : Loaded)
      → nonempty_text K 64 false s.voice.provider ≡ true
      → valid_https_endpoint K s.voice.endpoint ≡ true
      → nonempty_text K 256 false s.voice.model ≡ true
      → nonempty_text K 32 false s.voice.language ≡ true
      → valid_https_endpoint K s.voice.polish_endpoint ≡ true
      → nonempty_text K 256 false s.voice.polish_model ≡ true
      → nonempty_text K 8192 true s.voice.polish_prompt ≡ true
      → load_voice G K (stored G s f) l ≡ record l {
        settings = record l.settings {
          voice = record l.settings.voice {
            enabled = s.voice.enabled;
            provider = s.voice.provider;
            endpoint = s.voice.endpoint;
            model = s.voice.model;
            language = s.voice.language;
            polish_enabled = s.voice.polish_enabled;
            polish_endpoint = s.voice.polish_endpoint;
            polish_model = s.voice.polish_model;
            polish_prompt = s.voice.polish_prompt;
          };
        };
      }
  unfolding load_voice removed written writes
  load_voice-stored l voice_provider voice_endpoint voice_model voice_language voice_polish_endpoint
        voice_polish_model voice_polish_prompt =
      rw
        (
          load_boolean_lem G K glib (stored G s f) "voice" "enabled"
              (λ v s. record s { voice = record s.voice { enabled = v } }) s.voice.enabled _
              (value-stored G K glib "voice" "enabled" s f _ refl refl refl),
          load_string_lem G K glib (stored G s f) (nonempty_text K 64 false) "voice" "provider"
              (λ v s. record s { voice = record s.voice { provider = v } }) s.voice.provider _
              (utf8_of_text K laws _ _ _ (nonempty_text-valid K _ _ _ voice_provider))
              voice_provider (value-stored G K glib "voice" "provider" s f _ refl refl refl),
          load_string_lem G K glib (stored G s f) (valid_https_endpoint K) "voice" "endpoint"
              (λ v s. record s { voice = record s.voice { endpoint = v } }) s.voice.endpoint _
              (utf8_of_endpoint K laws _ voice_endpoint) voice_endpoint
              (value-stored G K glib "voice" "endpoint" s f _ refl refl refl),
          load_string_lem G K glib (stored G s f) (nonempty_text K 256 false) "voice" "model"
              (λ v s. record s { voice = record s.voice { model = v } }) s.voice.model _
              (utf8_of_text K laws _ _ _ (nonempty_text-valid K _ _ _ voice_model)) voice_model
              (value-stored G K glib "voice" "model" s f _ refl refl refl),
          load_string_lem G K glib (stored G s f) (nonempty_text K 32 false) "voice" "language"
              (λ v s. record s { voice = record s.voice { language = v } }) s.voice.language _
              (utf8_of_text K laws _ _ _ (nonempty_text-valid K _ _ _ voice_language))
              voice_language (value-stored G K glib "voice" "language" s f _ refl refl refl),
          load_boolean_lem G K glib (stored G s f) "voice" "polish-enabled"
              (λ v s. record s { voice = record s.voice { polish_enabled = v } })
              s.voice.polish_enabled _
              (value-stored G K glib "voice" "polish-enabled" s f _ refl refl refl),
          load_string_lem G K glib (stored G s f) (valid_https_endpoint K) "voice" "polish-endpoint"
              (λ v s. record s { voice = record s.voice { polish_endpoint = v } })
              s.voice.polish_endpoint _ (utf8_of_endpoint K laws _ voice_polish_endpoint)
              voice_polish_endpoint
              (value-stored G K glib "voice" "polish-endpoint" s f _ refl refl refl),
          load_string_lem G K glib (stored G s f) (nonempty_text K 256 false) "voice" "polish-model"
              (λ v s. record s { voice = record s.voice { polish_model = v } }) s.voice.polish_model
              _ (utf8_of_text K laws _ _ _ (nonempty_text-valid K _ _ _ voice_polish_model))
              voice_polish_model
              (value-stored G K glib "voice" "polish-model" s f _ refl refl refl),
          load_string_lem G K glib (stored G s f) (nonempty_text K 8192 true) "voice"
              "polish-prompt" (λ v s. record s { voice = record s.voice { polish_prompt = v } })
              s.voice.polish_prompt _
              (utf8_of_text K laws _ _ _ (nonempty_text-valid K _ _ _ voice_polish_prompt))
              voice_polish_prompt
              (value-stored G K glib "voice" "polish-prompt" s f _ refl refl refl),
        )
        refl
