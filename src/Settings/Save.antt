-- ===== src/Settings/Save.antt =====
-- Writing the settings file (src/SettingsStore.cpp).
use msime_linux.Base.{List, [], ◌∷◌, ◌++◌, Bytes}
use Prim.Native.String.{String}
use msime_linux.Controller.Types.{is_full}
use msime_linux.Settings.Types.{InputSettings}
use msime_linux.Settings.KeyFile.{KeyFile, Write, set_all, remove_all}
use msime_linux.Settings.Names.{
  mode_name, scheme_name, punctuation_lock_name, punctuation_name, preedit_style_name,
  candidate_window_layout_name, frequency_adjustment_name, ai_provider_name,
  translation_provider_name,
}

abbrev line : String → String → Bytes → Write
line group key raw = record { group = group; key = key; raw = raw }

module _ {F : Type 0} (G : KeyFile F) where
  unfoldable pub mode_writes : InputSettings → List Write
  mode_writes s =
      line "input" "mode" (G.escape (mode_name s.mode))
      ∷ line "input" "default-mode" (G.escape (mode_name s.default_mode))
      ∷ line "input" "scheme" (G.escape (scheme_name s.scheme))
      ∷ line "input" "page-size" (G.print_integer s.page_size)
      ∷ line "input" "candidate-window-layout"
          (G.escape (candidate_window_layout_name s.candidate_window_layout))
      ∷ line "input" "punctuation" (G.escape (punctuation_name s.punctuation_mode))
      ∷ line "input" "punctuation-lock" (G.escape (punctuation_lock_name s.punctuation_lock))
      ∷ line "input" "full-width" (G.print_boolean (is_full s.character_width))
      ∷ []

  unfoldable pub typing_writes : InputSettings → List Write
  typing_writes s =
      line "input" "comma-period-paging" (G.print_boolean s.comma_period_paging)
      ∷ line "input" "word-to-character" (G.print_boolean s.word_to_character)
      ∷ line "input" "bracket-paging" (G.print_boolean s.bracket_paging)
      ∷ line "input" "smart-punctuation" (G.print_boolean s.smart_punctuation)
      ∷ line "input" "smart-punctuation-repeat-to-chinese"
          (G.print_boolean s.smart_punctuation_repeat_to_chinese)
      ∷ line "input" "paired-punctuation" (G.print_boolean s.paired_punctuation)
      ∷ line "input" "preedit-style" (G.escape (preedit_style_name s.preedit_style))
      ∷ []

  unfoldable pub helpcode_writes : InputSettings → List Write
  helpcode_writes s =
      line "input" "quanpin-helpcode" (G.print_boolean s.quanpin_helpcode_enabled)
      ∷ line "input" "quanpin-helpcode-schema" (G.escape s.quanpin_helpcode_schema)
      ∷ line "input" "shuangpin-helpcode" (G.print_boolean s.shuangpin_helpcode_enabled)
      ∷ line "input" "shuangpin-helpcode-schema" (G.escape s.shuangpin_helpcode_schema)
      ∷ line "input" "frequency-adjustment"
          (G.escape (frequency_adjustment_name s.frequency_adjustment_mode))
      ∷ line "input" "frequency-trigger-count" (G.print_integer s.frequency_trigger_count)
      ∷ line "input" "frequency-linear-step" (G.print_integer s.frequency_linear_step)
      ∷ []

  unfoldable pub candidate_writes : InputSettings → List Write
  candidate_writes s =
      line "input" "unicode-mode" (G.print_boolean s.unicode_mode_enabled)
      ∷ line "input" "super-jianpin-mode" (G.print_boolean s.super_jianpin_mode_enabled)
      ∷ line "input" "temporary-english-mode" (G.print_boolean s.temporary_english_mode_enabled)
      ∷ line "input" "temporary-japanese-mode" (G.print_boolean s.temporary_japanese_mode_enabled)
      ∷ line "input" "mixed-english-candidates" (G.print_boolean s.mixed_english_candidates_enabled)
      ∷ line "input" "mixed-english-minimum-prefix" (G.print_integer s.mixed_english_minimum_prefix)
      ∷ line "input" "mixed-emoji-candidates" (G.print_boolean s.mixed_emoji_candidates_enabled)
      ∷ line "input" "mixed-kaomoji-candidates" (G.print_boolean s.mixed_kaomoji_candidates_enabled)
      ∷ []

  unfoldable pub utility_writes : InputSettings → List Write
  utility_writes s =
      line "utility" "clipboard-history" (G.print_boolean s.clipboard_history_enabled)
      ∷ line "utility" "quick-phrase-mode" (G.print_boolean s.quick_phrase_mode_enabled)
      ∷ line "utility" "date-time-mode" (G.print_boolean s.date_time_mode_enabled)
      ∷ line "utility" "emoji-mode" (G.print_boolean s.emoji_mode_enabled)
      ∷ line "utility" "kaomoji-mode" (G.print_boolean s.kaomoji_mode_enabled)
      ∷ line "utility" "floating-toolbar" (G.print_boolean s.floating_toolbar_enabled)
      ∷ line "input" "show-quanpin-helpcode" (G.print_boolean s.show_quanpin_helpcode_in_candidates)
      ∷ line "input" "show-shuangpin-helpcode"
          (G.print_boolean s.show_shuangpin_helpcode_in_candidates)
      ∷ line "keybindings" "switch-language-shift" (G.print_boolean s.switch_language_shift)
      ∷ line "keybindings" "switch-language-ctrl" (G.print_boolean s.switch_language_ctrl)
      ∷ line "keybindings" "switch-language-ctrl-alt-space"
          (G.print_boolean s.switch_language_ctrl_alt_space)
      ∷ []

  unfoldable pub online_writes : InputSettings → List Write
  online_writes s =
      line "online" "cloud-enabled" (G.print_boolean s.online.cloud_candidates_enabled)
      ∷ line "online" "connect-timeout-ms" (G.print_integer s.online.connect_timeout)
      ∷ line "online" "total-timeout-ms" (G.print_integer s.online.total_timeout)
      ∷ []

  unfoldable pub ai_writes : InputSettings → List Write
  ai_writes s =
      line "ai" "enabled" (G.print_boolean s.online.ai.enabled)
      ∷ line "ai" "provider" (G.escape (ai_provider_name s.online.ai.provider))
      ∷ line "ai" "endpoint" (G.escape s.online.ai.endpoint)
      ∷ line "ai" "model" (G.escape s.online.ai.model)
      ∷ line "ai" "prompt" (G.escape s.online.ai.prompt)
      ∷ line "ai" "candidate-limit" (G.print_integer s.online.ai.candidate_limit)
      ∷ []

  unfoldable pub translation_writes : InputSettings → List Write
  translation_writes s =
      line "translation" "enabled" (G.print_boolean s.online.candidate_translations_enabled)
      ∷ line "translation" "provider"
          (G.escape (translation_provider_name s.online.translation_provider))
      ∷ line "translation" "target-language" (G.escape s.online.translation_target_language)
      ∷ line "translation" "endpoint" (G.escape s.online.translation_endpoint)
      ∷ []

  unfoldable pub voice_writes : InputSettings → List Write
  voice_writes s =
      line "voice" "enabled" (G.print_boolean s.voice.enabled)
      ∷ line "voice" "provider" (G.escape s.voice.provider)
      ∷ line "voice" "endpoint" (G.escape s.voice.endpoint)
      ∷ line "voice" "model" (G.escape s.voice.model)
      ∷ line "voice" "language" (G.escape s.voice.language)
      ∷ line "voice" "polish-enabled" (G.print_boolean s.voice.polish_enabled)
      ∷ line "voice" "polish-endpoint" (G.escape s.voice.polish_endpoint)
      ∷ line "voice" "polish-model" (G.escape s.voice.polish_model)
      ∷ line "voice" "polish-prompt" (G.escape s.voice.polish_prompt)
      ∷ []

  -- The calls of `g_key_file_set_*`, in the order of the source.
  unfoldable pub writes : InputSettings → List Write
  unfolding mode_writes typing_writes helpcode_writes candidate_writes utility_writes online_writes
      ai_writes translation_writes voice_writes
  writes s =
      mode_writes s
      ++ typing_writes s
      ++ helpcode_writes s
      ++ candidate_writes s
      ++ utility_writes s
      ++ online_writes s
      ++ ai_writes s
      ++ translation_writes s
      ++ voice_writes s

-- The keys under which earlier versions stored credentials.
abbrev pub secret_places : List (String × String)
secret_places =
    ("ai", "token")
    ∷ ("translation", "token")
    ∷ ("voice", "token")
    ∷ ("ai", "api-token")
    ∷ ("translation", "api-token")
    ∷ ("voice", "api-token")
    ∷ ("ai", "api-key")
    ∷ ("translation", "api-key")
    ∷ ("voice", "api-key")
    ∷ ("online", "ai-token")
    ∷ ("online", "translation-token")
    ∷ ("online", "translation-api-key")
    ∷ []

module _ {F : Type 0} (G : KeyFile F) where
  -- The file with the settings put over what it held before.
  unfoldable pub stored : InputSettings → F → F
  unfolding set_all remove_all writes
  stored s f = remove_all G secret_places (set_all G (writes G s) f)
