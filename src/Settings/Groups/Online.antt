-- ===== src/Settings/Groups/Online.antt =====
-- These groups of keys are read back as they were stored (src/SettingsStore.cpp).
use msime_linux.Base.{true, false, ◌≡◌, refl, arith}
use msime_linux.Settings.Types.{InputSettings}
use msime_linux.Settings.KeyFile.{KeyFile, KeyFileLaws}
use msime_linux.Settings.Names.{
  ai_provider_name, translation_provider_name, parse_ai_provider, parse_translation_provider,
  parse_ai_provider-ai_provider_name, parse_translation_provider-translation_provider_name,
}
use msime_linux.Settings.Valid.{
  Checks, within, valid_utf8_text, valid_https_endpoint, valid_translation_language,
}
use msime_linux.Settings.Load.{Loaded, load_ai, load_translation}
use msime_linux.Settings.Save.{writes, stored}
use msime_linux.Settings.Stored.{
  ChecksLaws, removed, written, value-stored, load_boolean_lem, load_integer_lem, load_string_lem,
  load_choice_lem,
}
use msime_linux.Settings.Ascii.{
  ai_provider_name-is_ascii, translation_provider_name-is_ascii,
  valid_translation_language-is_ascii, utf8_of_text, utf8_of_endpoint,
}

module _ {F : Type 0} (G : KeyFile F) (K : Checks) (glib : KeyFileLaws G K.utf8_validate)
    (laws : ChecksLaws K) (s : InputSettings) (f : F) where
  pub load_ai-stored :
      (l : Loaded)
      → valid_https_endpoint K s.online.ai.endpoint ≡ true
      → valid_utf8_text K 256 false s.online.ai.model ≡ true
      → valid_utf8_text K 8192 true s.online.ai.prompt ≡ true
      → within 1 10 s.online.ai.candidate_limit ≡ true
      → load_ai G K (stored G s f) l ≡ record l {
        settings = record l.settings {
          online = record l.settings.online {
            ai = record l.settings.online.ai {
              enabled = s.online.ai.enabled;
              provider = s.online.ai.provider;
              endpoint = s.online.ai.endpoint;
              model = s.online.ai.model;
              prompt = s.online.ai.prompt;
              candidate_limit = s.online.ai.candidate_limit;
            };
          };
        };
      }
  unfolding load_ai removed written writes
  load_ai-stored l online_ai_endpoint online_ai_model online_ai_prompt online_ai_candidate_limit =
      rw
        (
          load_boolean_lem G K glib (stored G s f) "ai" "enabled"
              (λ v s. record s {
                online = record s.online { ai = record s.online.ai { enabled = v } };
              })
              s.online.ai.enabled _ (value-stored G K glib "ai" "enabled" s f _ refl refl refl),
          load_choice_lem G K glib (stored G s f) parse_ai_provider ai_provider_name "ai" "provider"
              (λ v s. record s {
                online = record s.online { ai = record s.online.ai { provider = v } };
              })
              s.online.ai.provider _
              (laws.ascii_is_utf8 _ (ai_provider_name-is_ascii s.online.ai.provider))
              (parse_ai_provider-ai_provider_name s.online.ai.provider)
              (value-stored G K glib "ai" "provider" s f _ refl refl refl),
          load_string_lem G K glib (stored G s f) (valid_https_endpoint K) "ai" "endpoint"
              (λ v s. record s {
                online = record s.online { ai = record s.online.ai { endpoint = v } };
              })
              s.online.ai.endpoint _ (utf8_of_endpoint K laws _ online_ai_endpoint)
              online_ai_endpoint (value-stored G K glib "ai" "endpoint" s f _ refl refl refl),
          load_string_lem G K glib (stored G s f) (valid_utf8_text K 256 false) "ai" "model"
              (λ v s. record s {
                online = record s.online { ai = record s.online.ai { model = v } };
              })
              s.online.ai.model _ (utf8_of_text K laws _ _ _ online_ai_model) online_ai_model
              (value-stored G K glib "ai" "model" s f _ refl refl refl),
          load_string_lem G K glib (stored G s f) (valid_utf8_text K 8192 true) "ai" "prompt"
              (λ v s. record s {
                online = record s.online { ai = record s.online.ai { prompt = v } };
              })
              s.online.ai.prompt _ (utf8_of_text K laws _ _ _ online_ai_prompt) online_ai_prompt
              (value-stored G K glib "ai" "prompt" s f _ refl refl refl),
          load_integer_lem G K glib (stored G s f) 1 10 "ai" "candidate-limit"
              (λ v s. record s {
                online = record s.online { ai = record s.online.ai { candidate_limit = v } };
              })
              s.online.ai.candidate_limit _ (omega arith) online_ai_candidate_limit
              (value-stored G K glib "ai" "candidate-limit" s f _ refl refl refl),
        )
        refl

  pub load_translation-stored :
      (l : Loaded)
      → valid_translation_language s.online.translation_target_language ≡ true
      → valid_https_endpoint K s.online.translation_endpoint ≡ true
      → load_translation G K (stored G s f) l ≡ record l {
        settings = record l.settings {
          online = record l.settings.online {
            candidate_translations_enabled = s.online.candidate_translations_enabled;
            translation_provider = s.online.translation_provider;
            translation_target_language = s.online.translation_target_language;
            translation_endpoint = s.online.translation_endpoint;
          };
        };
      }
  unfolding load_translation removed written writes
  load_translation-stored l online_translation_target_language online_translation_endpoint =
      rw
        (
          load_boolean_lem G K glib (stored G s f) "translation" "enabled"
              (λ v s. record s { online = record s.online { candidate_translations_enabled = v } })
              s.online.candidate_translations_enabled _
              (value-stored G K glib "translation" "enabled" s f _ refl refl refl),
          load_choice_lem G K glib (stored G s f) parse_translation_provider
              translation_provider_name "translation" "provider"
              (λ v s. record s { online = record s.online { translation_provider = v } })
              s.online.translation_provider _
              (laws.ascii_is_utf8 _
                (translation_provider_name-is_ascii s.online.translation_provider))
              (parse_translation_provider-translation_provider_name s.online.translation_provider)
              (value-stored G K glib "translation" "provider" s f _ refl refl refl),
          load_string_lem G K glib (stored G s f) (valid_translation_language) "translation"
              "target-language"
              (λ v s. record s { online = record s.online { translation_target_language = v } })
              s.online.translation_target_language _
              (laws.ascii_is_utf8 _
                (valid_translation_language-is_ascii _ online_translation_target_language))
              online_translation_target_language
              (value-stored G K glib "translation" "target-language" s f _ refl refl refl),
          load_string_lem G K glib (stored G s f) (valid_https_endpoint K) "translation" "endpoint"
              (λ v s. record s { online = record s.online { translation_endpoint = v } })
              s.online.translation_endpoint _
              (utf8_of_endpoint K laws _ online_translation_endpoint) online_translation_endpoint
              (value-stored G K glib "translation" "endpoint" s f _ refl refl refl),
        )
        refl
