-- ===== src/Settings/Edit.antt =====
-- Editing one setting in the settings window (`SettingsUiModel::set` of src/SettingsUiModel.cpp).
mod Choices
mod Booleans
mod Providers
mod Credentials
mod Texts
mod Rows
mod Ids
unfoldable pub use Choices.*
unfoldable pub use Booleans.*
unfoldable pub use Providers.*
unfoldable pub use Credentials.*
unfoldable pub use Texts.*
unfoldable pub use Rows.*
unfoldable pub use Ids.*
use msime_linux.Base.{
  ℕ, Bool, false, not, ◌&&◌, ◌||◌, Option, none, some, List, [], ◌∷◌, Bytes, bytes_eq, is_empty,
  starts_with, codes, if◌then◌else◌,
}
use Prim.Native.String.{String}
use text.Mathlib.Text.{◌==◌}
use msime_linux.Controller.Types.{
  InputMode, PunctuationMode, PunctuationLock, CharacterWidth, PreeditStyle,
}
use msime_linux.Online.Endpoint.{token_allowed}
use msime_linux.Settings.Types.{
  InputSettings, SchemeType, FrequencyAdjustmentMode, AiProvider, TranslationProvider,
  CandidateWindowLayout,
}
use msime_linux.Settings.Valid.{Checks, is_member, languages}
use msime_linux.Settings.Names.{ai_provider_name}
use msime_linux.Settings.Secrets.{uses_deeplx}
use msime_linux.Settings.Parse.{parse_bool, parse_integer, choose, valid_text}

module _ (K : Checks) where
  unfoldable pub edit_online : String → Bytes → InputSettings → Edit
  unfolding is_cleared_row is_credential_row is_text accept_if set_cleared edit_credential edit_text
  edit_online id v s =
      if is_cleared_row id
      then accept_if (parse_bool v) (λ b. set_cleared id b s)
      else if is_credential_row id
      then edit_credential id v s
      else if is_text id
      then edit_text K id v s
      else rejected invalid_value

  -- The whole chain.
  unfoldable pub edit : String → Bytes → InputSettings → Edit
  unfolding edit_modes is_boolean set_boolean accept_if edit_numbers edit_providers edit_online
  edit id v s = edit_modes id v s (
      if is_boolean id
      then accept_if (parse_bool v) (λ b. set_boolean id b s)
      else edit_numbers id v s (edit_providers id v s (edit_online id v s)))

-- The settings of the model after an edit.
unfoldable pub after : Edit → InputSettings → InputSettings
after (accepted s') s = s'
after (rejected e) s = s
