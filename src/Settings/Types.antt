-- ===== src/Settings/Types.antt =====
-- The settings of the input method (src/SettingsStore.h, with the structs of src/VoiceInput.h and
-- src/online/AiSuggestionProvider.h). Texts that a user may enter are byte strings. Integers and
-- durations, which are never negative here, are natural numbers; a duration is in milliseconds.
use msime_linux.Base.{ℕ, Bool, true, false, [], ◌∷◌, Bytes, codes}
use msime_linux.Controller.Types.{
  InputMode, PunctuationMode, PunctuationLock, CharacterWidth, PreeditStyle,
}

-- The schemes and the frequency modes that the settings name; both types are the library's.
pub data SchemeType : Type 0 where
  quanpin shuangpin wubi japanese_romaji : SchemeType

pub data FrequencyAdjustmentMode : Type 0 where
  disabled pin halve linear promote : FrequencyAdjustmentMode

pub data AiProvider : Type 0 where
  deep_seek open_ai silicon_flow groq custom : AiProvider

-- `Local` and `DeepLX`.
pub data TranslationProvider : Type 0 where
  local_dictionary deep_lx : TranslationProvider

pub data CandidateWindowLayout : Type 0 where
  vertical horizontal : CandidateWindowLayout

pub record VoiceConfig : Type 0 where
  pub enabled : Bool
  pub provider : Bytes
  pub endpoint : Bytes
  pub model : Bytes
  pub language : Bytes
  pub token : Bytes
  pub polish_enabled : Bool
  pub polish_endpoint : Bytes
  pub polish_model : Bytes
  pub polish_prompt : Bytes
  pub connect_timeout : ℕ
  pub total_timeout : ℕ

pub record AiConfig : Type 0 where
  pub enabled : Bool
  pub provider : AiProvider
  pub token : Bytes
  pub endpoint : Bytes
  pub model : Bytes
  pub prompt : Bytes
  pub candidate_limit : ℕ

pub record OnlineSettings : Type 0 where
  pub cloud_candidates_enabled : Bool
  pub ai : AiConfig
  pub candidate_translations_enabled : Bool
  pub translation_provider : TranslationProvider
  pub translation_target_language : Bytes
  pub translation_endpoint : Bytes
  pub translation_token : Bytes
  pub connect_timeout : ℕ
  pub total_timeout : ℕ
  pub ai_credential_available : Bool
  pub translation_credential_available : Bool
  pub ai_credential_cleared : Bool
  pub translation_credential_cleared : Bool

pub record InputSettings : Type 0 where
  pub mode : InputMode
  pub default_mode : InputMode
  pub scheme : SchemeType
  pub page_size : ℕ
  pub candidate_window_layout : CandidateWindowLayout
  pub punctuation_mode : PunctuationMode
  pub punctuation_lock : PunctuationLock
  pub character_width : CharacterWidth
  pub comma_period_paging : Bool
  pub word_to_character : Bool
  pub bracket_paging : Bool
  pub smart_punctuation : Bool
  pub smart_punctuation_repeat_to_chinese : Bool
  pub paired_punctuation : Bool
  pub preedit_style : PreeditStyle
  pub quanpin_helpcode_enabled : Bool
  pub quanpin_helpcode_schema : Bytes
  pub shuangpin_helpcode_enabled : Bool
  pub shuangpin_helpcode_schema : Bytes
  pub show_quanpin_helpcode_in_candidates : Bool
  pub show_shuangpin_helpcode_in_candidates : Bool
  pub frequency_adjustment_mode : FrequencyAdjustmentMode
  pub frequency_trigger_count : ℕ
  pub frequency_linear_step : ℕ
  pub unicode_mode_enabled : Bool
  pub super_jianpin_mode_enabled : Bool
  pub quick_phrase_mode_enabled : Bool
  pub date_time_mode_enabled : Bool
  pub emoji_mode_enabled : Bool
  pub kaomoji_mode_enabled : Bool
  pub temporary_english_mode_enabled : Bool
  pub temporary_japanese_mode_enabled : Bool
  pub mixed_english_candidates_enabled : Bool
  pub mixed_english_minimum_prefix : ℕ
  pub mixed_emoji_candidates_enabled : Bool
  pub mixed_kaomoji_candidates_enabled : Bool
  pub clipboard_history_enabled : Bool
  pub floating_toolbar_enabled : Bool
  pub switch_language_shift : Bool
  pub switch_language_ctrl : Bool
  pub switch_language_ctrl_alt_space : Bool
  pub voice : VoiceConfig
  pub voice_credential_available : Bool
  pub voice_credential_cleared : Bool
  pub online : OnlineSettings

-- The UTF-8 bytes of the default prompt.
abbrev pub default_polish_prompt : Bytes
default_polish_prompt =
    230 ∷ 149 ∷ 180 ∷ 231 ∷ 144 ∷ 134 ∷ 232 ∷ 175 ∷ 173 ∷ 233 ∷ 159 ∷ 179 ∷ 232 ∷ 189 ∷ 172 ∷ 229
    ∷ 134 ∷ 153 ∷ 239 ∷ 188 ∷ 140 ∷ 228 ∷ 191 ∷ 174 ∷ 230 ∷ 173 ∷ 163 ∷ 230 ∷ 152 ∷ 142 ∷ 230 ∷ 152
    ∷ 190 ∷ 233 ∷ 148 ∷ 153 ∷ 229 ∷ 136 ∷ 171 ∷ 229 ∷ 173 ∷ 151 ∷ 229 ∷ 185 ∷ 182 ∷ 232 ∷ 161 ∷ 165
    ∷ 229 ∷ 133 ∷ 133 ∷ 230 ∷ 160 ∷ 135 ∷ 231 ∷ 130 ∷ 185 ∷ 239 ∷ 188 ∷ 140 ∷ 229 ∷ 143 ∷ 170 ∷ 232
    ∷ 190 ∷ 147 ∷ 229 ∷ 135 ∷ 186 ∷ 230 ∷ 149 ∷ 180 ∷ 231 ∷ 144 ∷ 134 ∷ 229 ∷ 144 ∷ 142 ∷ 231 ∷ 154
    ∷ 132 ∷ 230 ∷ 150 ∷ 135 ∷ 230 ∷ 156 ∷ 172 ∷ 227 ∷ 128 ∷ 130 ∷ []

abbrev pub default_voice : VoiceConfig
default_voice = record {
  enabled = false;
  provider = codes "openai";
  endpoint = codes "https://api.openai.com/v1/audio/transcriptions";
  model = codes "whisper-1";
  language = codes "zh";
  token = [];
  polish_enabled = false;
  polish_endpoint = codes "https://api.openai.com/v1/chat/completions";
  polish_model = codes "gpt-4o-mini";
  polish_prompt = default_polish_prompt;
  connect_timeout = 2500;
  total_timeout = 8000;
}

abbrev pub default_ai : AiConfig
default_ai = record {
  enabled = false;
  provider = AiProvider.deep_seek;
  token = [];
  endpoint = [];
  model = [];
  prompt = [];
  candidate_limit = 3;
}

abbrev pub default_online : OnlineSettings
default_online = record {
  cloud_candidates_enabled = true;
  ai = default_ai;
  candidate_translations_enabled = true;
  translation_provider = TranslationProvider.local_dictionary;
  translation_target_language = codes "en";
  translation_endpoint = [];
  translation_token = [];
  connect_timeout = 2500;
  total_timeout = 8000;
  ai_credential_available = true;
  translation_credential_available = true;
  ai_credential_cleared = false;
  translation_credential_cleared = false;
}

abbrev pub default_settings : InputSettings
default_settings = record {
  mode = InputMode.ime;
  default_mode = InputMode.ime;
  scheme = SchemeType.quanpin;
  page_size = 9;
  candidate_window_layout = CandidateWindowLayout.vertical;
  punctuation_mode = PunctuationMode.chinese;
  punctuation_lock = PunctuationLock.follow;
  character_width = CharacterWidth.half;
  comma_period_paging = true;
  word_to_character = true;
  bracket_paging = false;
  smart_punctuation = true;
  smart_punctuation_repeat_to_chinese = true;
  paired_punctuation = true;
  preedit_style = PreeditStyle.raw;
  quanpin_helpcode_enabled = true;
  quanpin_helpcode_schema = codes "lantian";
  shuangpin_helpcode_enabled = true;
  shuangpin_helpcode_schema = codes "lantian";
  show_quanpin_helpcode_in_candidates = true;
  show_shuangpin_helpcode_in_candidates = true;
  frequency_adjustment_mode = FrequencyAdjustmentMode.promote;
  frequency_trigger_count = 1;
  frequency_linear_step = 1;
  unicode_mode_enabled = true;
  super_jianpin_mode_enabled = true;
  quick_phrase_mode_enabled = true;
  date_time_mode_enabled = true;
  emoji_mode_enabled = true;
  kaomoji_mode_enabled = true;
  temporary_english_mode_enabled = true;
  temporary_japanese_mode_enabled = true;
  mixed_english_candidates_enabled = true;
  mixed_english_minimum_prefix = 2;
  mixed_emoji_candidates_enabled = true;
  mixed_kaomoji_candidates_enabled = false;
  clipboard_history_enabled = false;
  floating_toolbar_enabled = true;
  switch_language_shift = true;
  switch_language_ctrl = false;
  switch_language_ctrl_alt_space = true;
  voice = default_voice;
  voice_credential_available = true;
  voice_credential_cleared = false;
  online = default_online;
}
