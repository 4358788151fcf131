-- ===== src/Settings/Edit/Texts.antt =====
-- The rows that are texts (src/SettingsUiModel.cpp).
use msime_linux.Base.{
  ℕ, Bool, not, ◌&&◌, ◌||◌, List, [], ◌∷◌, Bytes, is_empty, starts_with, codes, if◌then◌else◌,
}
use Prim.Native.String.{String}
use text.Mathlib.Text.{◌==◌}
use msime_linux.Settings.Types.{InputSettings}
use msime_linux.Settings.Valid.{Checks}
use msime_linux.Settings.Parse.{valid_text}
use msime_linux.Settings.Edit.Choices.{
  Edit, select, accepted, rejected, invalid_value, empty_while_enabled, empty_value,
}

unfoldable pub is_endpoint : String → Bool
is_endpoint id =
    id == "ai-endpoint"
    || id == "translation-endpoint"
    || id == "voice-endpoint"
    || id == "voice-polish-endpoint"

unfoldable pub is_model : String → Bool
is_model id = id == "ai-model" || id == "voice-model" || id == "voice-polish-model"

unfoldable pub maximum_of : String → ℕ
unfolding is_endpoint is_model
maximum_of id =
    if is_endpoint id
    then 2048
    else if is_model id
    then 256
    else if id == "voice-language"
    then 32
    else 8192

unfoldable pub is_required : String → Bool
is_required id =
    id == "voice-model"
    || id == "voice-language"
    || id == "voice-polish-model"
    || id == "voice-polish-prompt"

unfoldable pub is_required_while_enabled : String → InputSettings → Bool
is_required_while_enabled id s =
    (id == "voice-endpoint" && s.voice.enabled)
    || (id == "voice-polish-endpoint" && s.voice.polish_enabled)

unfoldable pub texts : Bytes → InputSettings → List (String × InputSettings)
texts v s =
    (
      "ai-endpoint",
      record s { online = record s.online { ai = record s.online.ai { endpoint = v } } },
    )
    ∷ ("ai-model", record s { online = record s.online { ai = record s.online.ai { model = v } } })
    ∷ (
      "ai-prompt",
      record s { online = record s.online { ai = record s.online.ai { prompt = v } } },
    )
    ∷ ("translation-endpoint", record s { online = record s.online { translation_endpoint = v } })
    ∷ ("voice-endpoint", record s { voice = record s.voice { endpoint = v } })
    ∷ ("voice-model", record s { voice = record s.voice { model = v } })
    ∷ ("voice-language", record s { voice = record s.voice { language = v } })
    ∷ ("voice-polish-endpoint", record s { voice = record s.voice { polish_endpoint = v } })
    ∷ ("voice-polish-model", record s { voice = record s.voice { polish_model = v } })
    ∷ []

unfoldable pub set_text : String → Bytes → InputSettings → InputSettings
unfolding texts
set_text id v s = select (texts v s) id (record s { voice = record s.voice { polish_prompt = v } })

module _ (K : Checks) where
  unfoldable pub text_accepted : String → Bytes → Bool
  text_accepted id v =
      valid_text K (maximum_of id) (id == "ai-prompt" || id == "voice-polish-prompt") v
      && (not (is_endpoint id) || is_empty v || starts_with v (codes "https://"))

  unfoldable pub edit_text : String → Bytes → InputSettings → Edit
  unfolding set_text text_accepted maximum_of is_endpoint is_required is_required_while_enabled
  edit_text id v s =
      if not (text_accepted id v)
      then rejected invalid_value
      else if is_empty v && (is_required id || is_required_while_enabled id s)
      then rejected (if is_required_while_enabled id s then empty_while_enabled else empty_value)
      else accepted (set_text id v s)
