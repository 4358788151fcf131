-- ===== src/Settings/Edit/Booleans.antt =====
-- The rows that are switches (src/SettingsUiModel.cpp).
use msime_linux.Base.{Bool, ◌||◌, List, [], ◌∷◌, starts_with, codes}
use Prim.Native.String.{String}
use text.Mathlib.Text.{◌==◌}
use msime_linux.Settings.Types.{InputSettings}
use msime_linux.Settings.Edit.Choices.{select}

unfoldable pub booleans : Bool → InputSettings → List (String × InputSettings)
booleans b s =
    ("comma-period-paging", record s { comma_period_paging = b })
    ∷ ("word-to-character", record s { word_to_character = b })
    ∷ ("bracket-paging", record s { bracket_paging = b })
    ∷ ("smart-punctuation", record s { smart_punctuation = b })
    ∷ ("smart-punctuation-repeat-to-chinese", record s { smart_punctuation_repeat_to_chinese = b })
    ∷ ("paired-punctuation", record s { paired_punctuation = b })
    ∷ ("quanpin-helpcode", record s { quanpin_helpcode_enabled = b })
    ∷ ("shuangpin-helpcode", record s { shuangpin_helpcode_enabled = b })
    ∷ ("unicode-mode", record s { unicode_mode_enabled = b })
    ∷ ("super-jianpin-mode", record s { super_jianpin_mode_enabled = b })
    ∷ ("temporary-english-mode", record s { temporary_english_mode_enabled = b })
    ∷ ("temporary-japanese-mode", record s { temporary_japanese_mode_enabled = b })
    ∷ ("switch-language-shift", record s { switch_language_shift = b })
    ∷ ("switch-language-ctrl", record s { switch_language_ctrl = b })
    ∷ ("switch-language-ctrl-alt-space", record s { switch_language_ctrl_alt_space = b })
    ∷ ("mixed-english-candidates", record s { mixed_english_candidates_enabled = b })
    ∷ ("mixed-emoji-candidates", record s { mixed_emoji_candidates_enabled = b })
    ∷ ("mixed-kaomoji-candidates", record s { mixed_kaomoji_candidates_enabled = b })
    ∷ ("show-quanpin-helpcode", record s { show_quanpin_helpcode_in_candidates = b })
    ∷ ("show-shuangpin-helpcode", record s { show_shuangpin_helpcode_in_candidates = b })
    ∷ ("quick-phrase-mode", record s { quick_phrase_mode_enabled = b })
    ∷ ("date-time-mode", record s { date_time_mode_enabled = b })
    ∷ ("emoji-mode", record s { emoji_mode_enabled = b })
    ∷ ("kaomoji-mode", record s { kaomoji_mode_enabled = b })
    ∷ ("clipboard-history", record s { clipboard_history_enabled = b })
    ∷ ("floating-toolbar", record s { floating_toolbar_enabled = b })
    ∷ ("voice-enabled", record s { voice = record s.voice { enabled = b } })
    ∷ ("voice-polish-enabled", record s { voice = record s.voice { polish_enabled = b } })
    ∷ ("cloud-enabled", record s { online = record s.online { cloud_candidates_enabled = b } })
    ∷ (
      "ai-enabled",
      record s { online = record s.online { ai = record s.online.ai { enabled = b } } },
    )
    ∷ (
      "translation-enabled",
      record s { online = record s.online { candidate_translations_enabled = b } },
    )
    ∷ []

unfoldable pub set_boolean : String → Bool → InputSettings → InputSettings
unfolding booleans
set_boolean id b s = select (booleans b s) id s

unfoldable pub is_boolean : String → Bool
is_boolean id =
    id == "comma-period-paging"
    || id == "word-to-character"
    || id == "bracket-paging"
    || id == "smart-punctuation"
    || id == "smart-punctuation-repeat-to-chinese"
    || id == "paired-punctuation"
    || id == "quanpin-helpcode"
    || id == "shuangpin-helpcode"
    || id == "unicode-mode"
    || id == "super-jianpin-mode"
    || id == "temporary-english-mode"
    || id == "temporary-japanese-mode"
    || id == "mixed-english-candidates"
    || id == "mixed-emoji-candidates"
    || id == "mixed-kaomoji-candidates"
    || id == "clipboard-history"
    || id == "floating-toolbar"
    || id == "voice-enabled"
    || id == "quick-phrase-mode"
    || id == "date-time-mode"
    || id == "emoji-mode"
    || id == "kaomoji-mode"
    || id == "show-quanpin-helpcode"
    || id == "show-shuangpin-helpcode"
    || starts_with (codes id) (codes "switch-language-")
    || id == "voice-polish-enabled"
    || id == "cloud-enabled"
    || id == "ai-enabled"
    || id == "translation-enabled"
