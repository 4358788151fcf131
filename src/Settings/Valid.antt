-- ===== src/Settings/Valid.antt =====
-- What the store accepts (src/SettingsStore.cpp).
use msime_linux.Base.{
  ℕ, Bool, true, false, not, ◌&&◌, ◌||◌, List, [], ◌∷◌, Bytes, bytes_eq, length, is_empty,
  starts_with, codes, ltb, leb, ◌==◌, if◌then◌else◌, all_of,
}
use msime_linux.Online.Endpoint.{token_allowed}
use msime_linux.Settings.Types.{InputSettings, OnlineSettings, VoiceConfig}

-- `g_utf8_validate` of GLib, and `Session::is_supported_helpcode_schema` of the composition library.
pub record Checks : Type 0 where
  pub utf8_validate : Bytes → Bool
  pub is_supported_helpcode_schema : Bytes → Bool

-- A byte that ends the search of `none_of`.
unfoldable pub is_forbidden : Bool → ℕ → Bool
is_forbidden allow_newlines c =
    if allow_newlines && (c == 0x0a || c == 0x0d || c == 0x09)
    then false
    else ltb c 0x20 || c == 0x7f

unfoldable pub contains_forbidden : Bool → Bytes → Bool
unfolding is_forbidden
contains_forbidden allow_newlines [] = false
contains_forbidden allow_newlines (c ∷ rest) =
    is_forbidden allow_newlines c || contains_forbidden allow_newlines rest

unfoldable pub contains_nul : Bytes → Bool
contains_nul [] = false
contains_nul (c ∷ rest) = c == 0 || contains_nul rest

unfoldable pub is_member : Bytes → List Bytes → Bool
unfolding bytes_eq
is_member x [] = false
is_member x (y ∷ ys) = bytes_eq x y || is_member x ys

abbrev pub languages : List Bytes
languages =
    codes "en" ∷ codes "fr" ∷ codes "ja" ∷ codes "es" ∷ codes "ru" ∷ codes "de" ∷ codes "ko" ∷ []

unfoldable pub valid_translation_language : Bytes → Bool
unfolding is_member
valid_translation_language language = is_member language languages

unfoldable pub within : ℕ → ℕ → ℕ → Bool
within low high n = leb low n && leb n high

module _ (K : Checks) where
  unfoldable pub valid_utf8_text : ℕ → Bool → Bytes → Bool
  unfolding contains_nul contains_forbidden
  valid_utf8_text maximum_bytes allow_newlines value =
      not (ltb maximum_bytes (length value) || contains_nul value || not (K.utf8_validate value))
      && not (contains_forbidden allow_newlines value)

  unfoldable pub valid_https_endpoint : Bytes → Bool
  unfolding valid_utf8_text starts_with
  valid_https_endpoint endpoint =
      is_empty endpoint
      || (leb (length endpoint) 2048
          && starts_with endpoint (codes "https://")
          && valid_utf8_text 2048 false endpoint)

  unfoldable pub online_conditions : OnlineSettings → List Bool
  online_conditions o =
      (valid_https_endpoint o.ai.endpoint)
      ∷ (valid_utf8_text 256 false o.ai.model)
      ∷ (valid_utf8_text 8192 true o.ai.prompt)
      ∷ (within 1 10 o.ai.candidate_limit)
      ∷ (valid_translation_language o.translation_target_language)
      ∷ (valid_https_endpoint o.translation_endpoint)
      ∷ (within 100 10000 o.connect_timeout)
      ∷ (within 500 30000 o.total_timeout)
      ∷ (token_allowed o.ai.token)
      ∷ (token_allowed o.translation_token)
      ∷ []

  unfoldable pub valid_online_settings : OnlineSettings → Bool
  unfolding online_conditions
  valid_online_settings o = all_of (online_conditions o)

  unfoldable pub voice_conditions : VoiceConfig → List Bool
  voice_conditions v =
      (valid_utf8_text 64 false v.provider)
      ∷ (not (is_empty v.provider))
      ∷ (valid_https_endpoint v.endpoint)
      ∷ (valid_utf8_text 256 false v.model)
      ∷ (not (is_empty v.model))
      ∷ (valid_utf8_text 32 false v.language)
      ∷ (not (is_empty v.language))
      ∷ (not v.enabled || not (is_empty v.endpoint))
      ∷ (valid_https_endpoint v.polish_endpoint)
      ∷ (valid_utf8_text 256 false v.polish_model)
      ∷ (not (is_empty v.polish_model))
      ∷ (valid_utf8_text 8192 true v.polish_prompt)
      ∷ (not (is_empty v.polish_prompt))
      ∷ (not v.polish_enabled || not (is_empty v.polish_endpoint))
      ∷ (token_allowed v.token)
      ∷ []

  unfoldable pub valid_voice_settings : VoiceConfig → Bool
  unfolding voice_conditions
  valid_voice_settings v = all_of (voice_conditions v)

  unfoldable pub input_conditions : InputSettings → List Bool
  input_conditions s =
      (within 3 9 s.page_size)
      ∷ (K.is_supported_helpcode_schema s.quanpin_helpcode_schema)
      ∷ (K.is_supported_helpcode_schema s.shuangpin_helpcode_schema)
      ∷ (within 1 10 s.frequency_trigger_count)
      ∷ (within 1 10 s.frequency_linear_step)
      ∷ (within 1 8 s.mixed_english_minimum_prefix)
      ∷ (valid_online_settings s.online)
      ∷ (valid_voice_settings s.voice)
      ∷ []

  unfoldable pub valid_input_settings : InputSettings → Bool
  unfolding input_conditions
  valid_input_settings s = all_of (input_conditions s)
