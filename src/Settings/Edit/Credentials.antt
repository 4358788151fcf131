-- ===== src/Settings/Edit/Credentials.antt =====
-- The rows of the credentials (src/SettingsUiModel.cpp).
use msime_linux.Base.{Bool, false, not, List, [], ◌∷◌, Bytes, is_empty, if◌then◌else◌}
use Prim.Native.String.{String}
use msime_linux.Online.Endpoint.{token_allowed}
use msime_linux.Settings.Types.{InputSettings}
use msime_linux.Settings.Edit.Choices.{Edit, select, accepted, rejected, credential_characters}

-- Forgetting the credential of a row drops the one in memory.
unfoldable pub clearings : Bool → InputSettings → List (String × InputSettings)
clearings b s =
    (
      "ai-credential-clear",
      record s {
        online = record s.online {
          ai_credential_cleared = b;
          ai = record s.online.ai { token = if b then [] else s.online.ai.token };
        };
      },
    )
    ∷ (
      "voice-credential-clear",
      record s {
        voice_credential_cleared = b;
        voice = record s.voice { token = if b then [] else s.voice.token };
      },
    )
    ∷ []

abbrev pub clear_translation : Bool → InputSettings → InputSettings
clear_translation b s = record s {
  online = record s.online {
    translation_credential_cleared = b;
    translation_token = if b then [] else s.online.translation_token;
  };
}

unfoldable pub set_cleared : String → Bool → InputSettings → InputSettings
unfolding clearings
set_cleared id b s = select (clearings b s) id (clear_translation b s)

unfoldable pub credentials : Bytes → InputSettings → List (String × InputSettings)
credentials v s =
    (
      "ai-credential",
      record s {
        online = record s.online {
          ai = record s.online.ai { token = v };
          ai_credential_cleared = false;
        };
      },
    )
    ∷ (
      "voice-credential",
      record s { voice = record s.voice { token = v }; voice_credential_cleared = false },
    )
    ∷ []

abbrev pub enter_translation : Bytes → InputSettings → InputSettings
enter_translation v s = record s {
  online = record s.online { translation_token = v; translation_credential_cleared = false };
}

unfoldable pub set_credential : String → Bytes → InputSettings → InputSettings
unfolding credentials
set_credential id v s = select (credentials v s) id (enter_translation v s)

unfoldable pub edit_credential : String → Bytes → InputSettings → Edit
unfolding set_credential
edit_credential id v s =
    if not (token_allowed v)
    then rejected credential_characters
    else if is_empty v
    then accepted s
    else accepted (set_credential id v s)
