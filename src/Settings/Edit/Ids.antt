-- ===== src/Settings/Edit/Ids.antt =====
-- Groups of rows (src/SettingsUiModel.cpp).
use msime_linux.Base.{Bool, false, ◌||◌, List, [], ◌∷◌}
use Prim.Native.String.{String}
use text.Mathlib.Text.{◌==◌}

unfoldable pub is_cleared_row : String → Bool
is_cleared_row id =
    id == "ai-credential-clear"
    || id == "voice-credential-clear"
    || id == "translation-credential-clear"

unfoldable pub is_credential_row : String → Bool
is_credential_row id =
    id == "ai-credential" || id == "voice-credential" || id == "translation-credential"

-- A name is one of some names.
abbrev pub is_any : List String → String → Bool
is_any [] id = false
is_any (name ∷ names) id = id == name || is_any names id

unfoldable pub is_text : String → Bool
is_text id =
    is_any
      ("ai-endpoint" ∷ "ai-model" ∷ "ai-prompt" ∷ "translation-endpoint" ∷ "voice-endpoint"
        ∷ "voice-model" ∷ "voice-language" ∷ "voice-polish-endpoint" ∷ "voice-polish-model"
        ∷ "voice-polish-prompt" ∷ [])
      id
