-- ===== src/Settings/Load.antt =====
-- Reading the settings file (`SettingsStore::load` of src/SettingsStore.cpp), key by key: a key that
-- is missing leaves the default, and a value that cannot be used leaves it too and is reported.
mod Field
unfoldable pub use Field.*
use msime_linux.Base.{
  ℕ, Bool, true, false, not, ◌&&◌, Option, none, some, Bytes, is_empty, if◌then◌else◌,
}
use Prim.Native.String.{String}
use msime_linux.Controller.Types.{CharacterWidth}
use msime_linux.Settings.Types.{InputSettings, default_settings}
use msime_linux.Settings.KeyFile.{ℤ, pos, negsuc, KeyFile}
use msime_linux.Settings.Names.{
  parse_mode, parse_scheme, parse_punctuation_lock, parse_punctuation, parse_preedit_style,
  parse_candidate_window_layout, parse_frequency_adjustment, parse_ai_provider,
  parse_translation_provider,
}
use msime_linux.Settings.Valid.{
  Checks, within, valid_utf8_text, valid_https_endpoint, valid_translation_language,
}

module _ {F : Type 0} (G : KeyFile F) (K : Checks) (f : F) where
  unfoldable pub load_modes : Loaded → Loaded
  load_modes l0 =
      let l1 : Loaded =
        load_choice G f parse_mode "input" "mode" (λ v s. record s { mode = v }) l0 in
      let l2 : Loaded =
        load_choice G f parse_mode "input" "default-mode" (λ v s. record s { default_mode = v })
          l1 in
      let l3 : Loaded =
        load_choice G f parse_scheme "input" "scheme" (λ v s. record s { scheme = v }) l2 in
      let l4 : Loaded =
        load_integer G f 3 9 "input" "page-size" (λ v s. record s { page_size = v }) l3 in
      let l5 : Loaded =
        load_choice G f parse_punctuation_lock "input" "punctuation-lock"
          (λ v s. record s { punctuation_lock = v }) l4 in
      let l6 : Loaded =
        load_choice G f parse_punctuation "input" "punctuation"
          (λ v s. record s { punctuation_mode = v }) l5 in
      let l7 : Loaded =
        load_boolean G f "input" "full-width" (λ v s. record s { character_width = width_of v })
          l6 in
      l7

  unfoldable pub load_typing : Loaded → Loaded
  load_typing l0 =
      let l1 : Loaded =
        load_boolean G f "input" "comma-period-paging" (λ v s. record s { comma_period_paging = v })
          l0 in
      let l2 : Loaded =
        load_boolean G f "input" "word-to-character" (λ v s. record s { word_to_character = v })
          l1 in
      let l3 : Loaded =
        load_boolean G f "input" "bracket-paging" (λ v s. record s { bracket_paging = v }) l2 in
      let l4 : Loaded =
        load_boolean G f "input" "smart-punctuation" (λ v s. record s { smart_punctuation = v })
          l3 in
      let l5 : Loaded =
        load_boolean G f "input" "smart-punctuation-repeat-to-chinese"
          (λ v s. record s { smart_punctuation_repeat_to_chinese = v }) l4 in
      let l6 : Loaded =
        load_boolean G f "input" "paired-punctuation" (λ v s. record s { paired_punctuation = v })
          l5 in
      let l7 : Loaded =
        load_choice G f parse_preedit_style "input" "preedit-style"
          (λ v s. record s { preedit_style = v }) l6 in
      let l8 : Loaded =
        load_choice G f parse_candidate_window_layout "input" "candidate-window-layout"
          (λ v s. record s { candidate_window_layout = v }) l7 in
      l8

  unfoldable pub load_helpcodes : Loaded → Loaded
  load_helpcodes l0 =
      let l1 : Loaded =
        load_boolean G f "input" "quanpin-helpcode"
          (λ v s. record s { quanpin_helpcode_enabled = v }) l0 in
      let l2 : Loaded =
        load_string G f (K.is_supported_helpcode_schema) "input" "quanpin-helpcode-schema"
          (λ v s. record s { quanpin_helpcode_schema = v }) l1 in
      let l3 : Loaded =
        load_boolean G f "input" "shuangpin-helpcode"
          (λ v s. record s { shuangpin_helpcode_enabled = v }) l2 in
      let l4 : Loaded =
        load_string G f (K.is_supported_helpcode_schema) "input" "shuangpin-helpcode-schema"
          (λ v s. record s { shuangpin_helpcode_schema = v }) l3 in
      l4

  unfoldable pub load_frequency : Loaded → Loaded
  load_frequency l0 =
      let l1 : Loaded =
        load_choice G f parse_frequency_adjustment "input" "frequency-adjustment"
          (λ v s. record s { frequency_adjustment_mode = v }) l0 in
      let l2 : Loaded =
        load_integer G f 1 10 "input" "frequency-trigger-count"
          (λ v s. record s { frequency_trigger_count = v }) l1 in
      let l3 : Loaded =
        load_integer G f 1 10 "input" "frequency-linear-step"
          (λ v s. record s { frequency_linear_step = v }) l2 in
      l3

  unfoldable pub load_candidates : Loaded → Loaded
  load_candidates l0 =
      let l1 : Loaded =
        load_boolean G f "input" "unicode-mode" (λ v s. record s { unicode_mode_enabled = v }) l0 in
      let l2 : Loaded =
        load_boolean G f "input" "super-jianpin-mode"
          (λ v s. record s { super_jianpin_mode_enabled = v }) l1 in
      let l3 : Loaded =
        load_boolean G f "input" "temporary-english-mode"
          (λ v s. record s { temporary_english_mode_enabled = v }) l2 in
      let l4 : Loaded =
        load_boolean G f "input" "temporary-japanese-mode"
          (λ v s. record s { temporary_japanese_mode_enabled = v }) l3 in
      let l5 : Loaded =
        load_boolean G f "input" "mixed-english-candidates"
          (λ v s. record s { mixed_english_candidates_enabled = v }) l4 in
      let l6 : Loaded =
        load_integer G f 1 8 "input" "mixed-english-minimum-prefix"
          (λ v s. record s { mixed_english_minimum_prefix = v }) l5 in
      let l7 : Loaded =
        load_boolean G f "input" "mixed-emoji-candidates"
          (λ v s. record s { mixed_emoji_candidates_enabled = v }) l6 in
      let l8 : Loaded =
        load_boolean G f "input" "mixed-kaomoji-candidates"
          (λ v s. record s { mixed_kaomoji_candidates_enabled = v }) l7 in
      l8

  unfoldable pub load_online : Loaded → Loaded
  load_online l0 =
      let l1 : Loaded =
        load_boolean G f "online" "cloud-enabled"
          (λ v s. record s { online = record s.online { cloud_candidates_enabled = v } }) l0 in
      let l2 : Loaded =
        load_integer G f 100 10000 "online" "connect-timeout-ms"
          (λ v s. record s { online = record s.online { connect_timeout = v } }) l1 in
      let l3 : Loaded =
        load_integer G f 500 30000 "online" "total-timeout-ms"
          (λ v s. record s { online = record s.online { total_timeout = v } }) l2 in
      l3

  unfoldable pub load_ai : Loaded → Loaded
  load_ai l0 =
      let l1 : Loaded =
        load_boolean G f "ai" "enabled"
          (λ v s. record s { online = record s.online { ai = record s.online.ai { enabled = v } } })
          l0 in
      let l2 : Loaded =
        load_choice G f parse_ai_provider "ai" "provider"
          (λ v s. record s {
            online = record s.online { ai = record s.online.ai { provider = v } };
          })
          l1 in
      let l3 : Loaded =
        load_string G f (valid_https_endpoint K) "ai" "endpoint"
          (λ v s. record s {
            online = record s.online { ai = record s.online.ai { endpoint = v } };
          })
          l2 in
      let l4 : Loaded =
        load_string G f (valid_utf8_text K 256 false) "ai" "model"
          (λ v s. record s { online = record s.online { ai = record s.online.ai { model = v } } })
          l3 in
      let l5 : Loaded =
        load_string G f (valid_utf8_text K 8192 true) "ai" "prompt"
          (λ v s. record s { online = record s.online { ai = record s.online.ai { prompt = v } } })
          l4 in
      let l6 : Loaded =
        load_integer G f 1 10 "ai" "candidate-limit"
          (λ v s. record s {
            online = record s.online { ai = record s.online.ai { candidate_limit = v } };
          })
          l5 in
      l6

  unfoldable pub load_translation : Loaded → Loaded
  load_translation l0 =
      let l1 : Loaded =
        load_boolean G f "translation" "enabled"
          (λ v s. record s { online = record s.online { candidate_translations_enabled = v } })
          l0 in
      let l2 : Loaded =
        load_choice G f parse_translation_provider "translation" "provider"
          (λ v s. record s { online = record s.online { translation_provider = v } }) l1 in
      let l3 : Loaded =
        load_string G f (valid_translation_language) "translation" "target-language"
          (λ v s. record s { online = record s.online { translation_target_language = v } }) l2 in
      let l4 : Loaded =
        load_string G f (valid_https_endpoint K) "translation" "endpoint"
          (λ v s. record s { online = record s.online { translation_endpoint = v } }) l3 in
      l4

  unfoldable pub load_utilities : Loaded → Loaded
  load_utilities l0 =
      let l1 : Loaded =
        load_boolean G f "utility" "quick-phrase-mode"
          (λ v s. record s { quick_phrase_mode_enabled = v }) l0 in
      let l2 : Loaded =
        load_boolean G f "utility" "date-time-mode" (λ v s. record s { date_time_mode_enabled = v })
          l1 in
      let l3 : Loaded =
        load_boolean G f "utility" "emoji-mode" (λ v s. record s { emoji_mode_enabled = v }) l2 in
      let l4 : Loaded =
        load_boolean G f "utility" "kaomoji-mode" (λ v s. record s { kaomoji_mode_enabled = v })
          l3 in
      let l5 : Loaded =
        load_boolean G f "utility" "clipboard-history"
          (λ v s. record s { clipboard_history_enabled = v }) l4 in
      let l6 : Loaded =
        load_boolean G f "utility" "floating-toolbar"
          (λ v s. record s { floating_toolbar_enabled = v }) l5 in
      l6

  unfoldable pub load_shortcuts : Loaded → Loaded
  load_shortcuts l0 =
      let l1 : Loaded =
        load_boolean G f "input" "show-quanpin-helpcode"
          (λ v s. record s { show_quanpin_helpcode_in_candidates = v }) l0 in
      let l2 : Loaded =
        load_boolean G f "input" "show-shuangpin-helpcode"
          (λ v s. record s { show_shuangpin_helpcode_in_candidates = v }) l1 in
      let l3 : Loaded =
        load_boolean G f "keybindings" "switch-language-shift"
          (λ v s. record s { switch_language_shift = v }) l2 in
      let l4 : Loaded =
        load_boolean G f "keybindings" "switch-language-ctrl"
          (λ v s. record s { switch_language_ctrl = v }) l3 in
      let l5 : Loaded =
        load_boolean G f "keybindings" "switch-language-ctrl-alt-space"
          (λ v s. record s { switch_language_ctrl_alt_space = v }) l4 in
      l5

  unfoldable pub load_voice : Loaded → Loaded
  load_voice l0 =
      let l1 : Loaded =
        load_boolean G f "voice" "enabled"
          (λ v s. record s { voice = record s.voice { enabled = v } }) l0 in
      let l2 : Loaded =
        load_string G f (nonempty_text K 64 false) "voice" "provider"
          (λ v s. record s { voice = record s.voice { provider = v } }) l1 in
      let l3 : Loaded =
        load_string G f (valid_https_endpoint K) "voice" "endpoint"
          (λ v s. record s { voice = record s.voice { endpoint = v } }) l2 in
      let l4 : Loaded =
        load_string G f (nonempty_text K 256 false) "voice" "model"
          (λ v s. record s { voice = record s.voice { model = v } }) l3 in
      let l5 : Loaded =
        load_string G f (nonempty_text K 32 false) "voice" "language"
          (λ v s. record s { voice = record s.voice { language = v } }) l4 in
      let l6 : Loaded =
        load_boolean G f "voice" "polish-enabled"
          (λ v s. record s { voice = record s.voice { polish_enabled = v } }) l5 in
      let l7 : Loaded =
        load_string G f (valid_https_endpoint K) "voice" "polish-endpoint"
          (λ v s. record s { voice = record s.voice { polish_endpoint = v } }) l6 in
      let l8 : Loaded =
        load_string G f (nonempty_text K 256 false) "voice" "polish-model"
          (λ v s. record s { voice = record s.voice { polish_model = v } }) l7 in
      let l9 : Loaded =
        load_string G f (nonempty_text K 8192 true) "voice" "polish-prompt"
          (λ v s. record s { voice = record s.voice { polish_prompt = v } }) l8 in
      l9

  -- All keys, in the order of the source.
  unfoldable pub load_fields : Loaded → Loaded
  load_fields l = load_voice (
      load_shortcuts (
        load_utilities (
          load_translation (
            load_ai (
              load_online (
                load_candidates (load_frequency (load_helpcodes (load_typing (load_modes l))))))))))

-- What reading the file gave.
pub data FileRead : Type 0 where
  contents : Bytes → FileRead
  missing unreadable : FileRead

-- The message that `load` leaves in `warning`.
pub data Warning : Type 0 where
  nothing cannot_read cannot_parse some_invalid : Warning

module _ {F : Type 0} (G : KeyFile F) (K : Checks) where
  unfoldable pub load_parsed : Option F → InputSettings × Warning
  load_parsed none = (default_settings, cannot_parse)
  load_parsed (some f) =
      let l : Loaded =
        load_fields G K f (record { settings = default_settings; invalid = false }) in
      (l.settings, if l.invalid then some_invalid else nothing)

  unfoldable pub load : FileRead → InputSettings × Warning
  load missing = (default_settings, nothing)
  load unreadable = (default_settings, cannot_read)
  load (contents bytes) = load_parsed (G.load_from_data bytes)
