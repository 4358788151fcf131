-- ===== src/Settings/Edit/Providers.antt =====
-- The rows of the providers (src/SettingsUiModel.cpp).
use msime_linux.Base.{Bool, not, [], Bytes, bytes_eq, if◌then◌else◌}
use msime_linux.Settings.Types.{InputSettings, AiProvider, TranslationProvider}
use msime_linux.Settings.Names.{ai_provider_name}
use msime_linux.Settings.Secrets.{uses_deeplx}

-- A token is dropped with the provider that it belonged to.
unfoldable pub set_ai_provider : AiProvider → InputSettings → InputSettings
set_ai_provider p s = record s {
  online = record s.online {
    ai = record s.online.ai {
      provider = p;
      token =
          if bytes_eq (ai_provider_name p) (ai_provider_name s.online.ai.provider)
          then s.online.ai.token
          else [];
    };
  };
}

unfoldable pub set_voice_provider : Bytes → InputSettings → InputSettings
set_voice_provider p s = record s {
  voice = record s.voice {
    provider = p;
    token = if bytes_eq p s.voice.provider then s.voice.token else [];
  };
}

unfoldable pub same_backend : TranslationProvider → TranslationProvider → Bool
same_backend TranslationProvider.local_dictionary p = not (uses_deeplx p)
same_backend TranslationProvider.deep_lx p = uses_deeplx p

unfoldable pub set_translation_provider : TranslationProvider → InputSettings → InputSettings
set_translation_provider p s = record s {
  online = record s.online {
    translation_provider = p;
    translation_token =
        if same_backend p s.online.translation_provider then s.online.translation_token else [];
  };
}
