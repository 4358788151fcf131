-- ===== src/Settings/Names.antt =====
-- The names by which the settings file spells the values of enumerations, and how they are read
-- back (src/SettingsStore.cpp). A value outside its enumeration does not exist here, so a name is
-- never null.
use msime_linux.Base.{Option, none, some, Bytes, bytes_eq, codes, if◌then◌else◌, ◌≡◌, refl}
use msime_linux.Controller.Types.{InputMode, PunctuationMode, PunctuationLock, PreeditStyle}
use msime_linux.Settings.Types.{
  SchemeType, FrequencyAdjustmentMode, AiProvider, TranslationProvider, CandidateWindowLayout,
}

unfoldable pub mode_name : InputMode → Bytes
mode_name InputMode.ime = codes "ime"
mode_name InputMode.direct = codes "direct"

unfoldable pub parse_mode : Bytes → Option InputMode
unfolding bytes_eq
parse_mode name =
    if bytes_eq name (codes "ime")
    then some InputMode.ime
    else if bytes_eq name (codes "direct")
    then some InputMode.direct
    else none

pub parse_mode-mode_name : (x : InputMode) → parse_mode (mode_name x) ≡ some x
unfolding mode_name parse_mode
parse_mode-mode_name InputMode.ime = refl
parse_mode-mode_name InputMode.direct = refl

unfoldable pub scheme_name : SchemeType → Bytes
scheme_name SchemeType.quanpin = codes "quanpin"
scheme_name SchemeType.shuangpin = codes "shuangpin"
scheme_name SchemeType.wubi = codes "wubi"
scheme_name SchemeType.japanese_romaji = codes "japanese"

unfoldable pub parse_scheme : Bytes → Option SchemeType
unfolding bytes_eq
parse_scheme name =
    if bytes_eq name (codes "quanpin")
    then some SchemeType.quanpin
    else if bytes_eq name (codes "shuangpin")
    then some SchemeType.shuangpin
    else if bytes_eq name (codes "wubi")
    then some SchemeType.wubi
    else if bytes_eq name (codes "japanese")
    then some SchemeType.japanese_romaji
    else none

pub parse_scheme-scheme_name : (x : SchemeType) → parse_scheme (scheme_name x) ≡ some x
unfolding scheme_name parse_scheme
parse_scheme-scheme_name SchemeType.quanpin = refl
parse_scheme-scheme_name SchemeType.shuangpin = refl
parse_scheme-scheme_name SchemeType.wubi = refl
parse_scheme-scheme_name SchemeType.japanese_romaji = refl

unfoldable pub punctuation_lock_name : PunctuationLock → Bytes
punctuation_lock_name PunctuationLock.follow = codes "follow"
punctuation_lock_name PunctuationLock.chinese = codes "chinese"
punctuation_lock_name PunctuationLock.english = codes "english"

unfoldable pub parse_punctuation_lock : Bytes → Option PunctuationLock
unfolding bytes_eq
parse_punctuation_lock name =
    if bytes_eq name (codes "follow")
    then some PunctuationLock.follow
    else if bytes_eq name (codes "chinese")
    then some PunctuationLock.chinese
    else if bytes_eq name (codes "english")
    then some PunctuationLock.english
    else none

pub parse_punctuation_lock-punctuation_lock_name :
    (x : PunctuationLock) → parse_punctuation_lock (punctuation_lock_name x) ≡ some x
unfolding punctuation_lock_name parse_punctuation_lock
parse_punctuation_lock-punctuation_lock_name PunctuationLock.follow = refl
parse_punctuation_lock-punctuation_lock_name PunctuationLock.chinese = refl
parse_punctuation_lock-punctuation_lock_name PunctuationLock.english = refl

unfoldable pub punctuation_name : PunctuationMode → Bytes
punctuation_name PunctuationMode.chinese = codes "chinese"
punctuation_name PunctuationMode.english = codes "english"

unfoldable pub parse_punctuation : Bytes → Option PunctuationMode
unfolding bytes_eq
parse_punctuation name =
    if bytes_eq name (codes "chinese")
    then some PunctuationMode.chinese
    else if bytes_eq name (codes "english")
    then some PunctuationMode.english
    else none

pub parse_punctuation-punctuation_name :
    (x : PunctuationMode) → parse_punctuation (punctuation_name x) ≡ some x
unfolding punctuation_name parse_punctuation
parse_punctuation-punctuation_name PunctuationMode.chinese = refl
parse_punctuation-punctuation_name PunctuationMode.english = refl

unfoldable pub preedit_style_name : PreeditStyle → Bytes
preedit_style_name PreeditStyle.raw = codes "raw"
preedit_style_name PreeditStyle.pinyin = codes "pinyin"
preedit_style_name PreeditStyle.hidden = codes "hidden"

unfoldable pub parse_preedit_style : Bytes → Option PreeditStyle
unfolding bytes_eq
parse_preedit_style name =
    if bytes_eq name (codes "raw")
    then some PreeditStyle.raw
    else if bytes_eq name (codes "pinyin")
    then some PreeditStyle.pinyin
    else if bytes_eq name (codes "hidden")
    then some PreeditStyle.hidden
    else none

pub parse_preedit_style-preedit_style_name :
    (x : PreeditStyle) → parse_preedit_style (preedit_style_name x) ≡ some x
unfolding preedit_style_name parse_preedit_style
parse_preedit_style-preedit_style_name PreeditStyle.raw = refl
parse_preedit_style-preedit_style_name PreeditStyle.pinyin = refl
parse_preedit_style-preedit_style_name PreeditStyle.hidden = refl

unfoldable pub candidate_window_layout_name : CandidateWindowLayout → Bytes
candidate_window_layout_name CandidateWindowLayout.vertical = codes "vertical"
candidate_window_layout_name CandidateWindowLayout.horizontal = codes "horizontal"

unfoldable pub parse_candidate_window_layout : Bytes → Option CandidateWindowLayout
unfolding bytes_eq
parse_candidate_window_layout name =
    if bytes_eq name (codes "vertical")
    then some CandidateWindowLayout.vertical
    else if bytes_eq name (codes "horizontal")
    then some CandidateWindowLayout.horizontal
    else none

pub parse_candidate_window_layout-candidate_window_layout_name :
    (x : CandidateWindowLayout)
    → parse_candidate_window_layout (candidate_window_layout_name x) ≡ some x
unfolding candidate_window_layout_name parse_candidate_window_layout
parse_candidate_window_layout-candidate_window_layout_name CandidateWindowLayout.vertical = refl
parse_candidate_window_layout-candidate_window_layout_name CandidateWindowLayout.horizontal = refl

unfoldable pub frequency_adjustment_name : FrequencyAdjustmentMode → Bytes
frequency_adjustment_name FrequencyAdjustmentMode.disabled = codes "disabled"
frequency_adjustment_name FrequencyAdjustmentMode.pin = codes "pin"
frequency_adjustment_name FrequencyAdjustmentMode.halve = codes "halve"
frequency_adjustment_name FrequencyAdjustmentMode.linear = codes "linear"
frequency_adjustment_name FrequencyAdjustmentMode.promote = codes "promote"

unfoldable pub parse_frequency_adjustment : Bytes → Option FrequencyAdjustmentMode
unfolding bytes_eq
parse_frequency_adjustment name =
    if bytes_eq name (codes "disabled")
    then some FrequencyAdjustmentMode.disabled
    else if bytes_eq name (codes "pin")
    then some FrequencyAdjustmentMode.pin
    else if bytes_eq name (codes "halve")
    then some FrequencyAdjustmentMode.halve
    else if bytes_eq name (codes "linear")
    then some FrequencyAdjustmentMode.linear
    else if bytes_eq name (codes "promote")
    then some FrequencyAdjustmentMode.promote
    else none

pub parse_frequency_adjustment-frequency_adjustment_name :
    (x : FrequencyAdjustmentMode)
    → parse_frequency_adjustment (frequency_adjustment_name x) ≡ some x
unfolding frequency_adjustment_name parse_frequency_adjustment
parse_frequency_adjustment-frequency_adjustment_name FrequencyAdjustmentMode.disabled = refl
parse_frequency_adjustment-frequency_adjustment_name FrequencyAdjustmentMode.pin = refl
parse_frequency_adjustment-frequency_adjustment_name FrequencyAdjustmentMode.halve = refl
parse_frequency_adjustment-frequency_adjustment_name FrequencyAdjustmentMode.linear = refl
parse_frequency_adjustment-frequency_adjustment_name FrequencyAdjustmentMode.promote = refl

unfoldable pub ai_provider_name : AiProvider → Bytes
ai_provider_name AiProvider.deep_seek = codes "deepseek"
ai_provider_name AiProvider.open_ai = codes "openai"
ai_provider_name AiProvider.silicon_flow = codes "siliconflow"
ai_provider_name AiProvider.groq = codes "groq"
ai_provider_name AiProvider.custom = codes "custom"

unfoldable pub parse_ai_provider : Bytes → Option AiProvider
unfolding bytes_eq
parse_ai_provider name =
    if bytes_eq name (codes "deepseek")
    then some AiProvider.deep_seek
    else if bytes_eq name (codes "openai")
    then some AiProvider.open_ai
    else if bytes_eq name (codes "siliconflow")
    then some AiProvider.silicon_flow
    else if bytes_eq name (codes "groq")
    then some AiProvider.groq
    else if bytes_eq name (codes "custom")
    then some AiProvider.custom
    else none

pub parse_ai_provider-ai_provider_name :
    (x : AiProvider) → parse_ai_provider (ai_provider_name x) ≡ some x
unfolding ai_provider_name parse_ai_provider
parse_ai_provider-ai_provider_name AiProvider.deep_seek = refl
parse_ai_provider-ai_provider_name AiProvider.open_ai = refl
parse_ai_provider-ai_provider_name AiProvider.silicon_flow = refl
parse_ai_provider-ai_provider_name AiProvider.groq = refl
parse_ai_provider-ai_provider_name AiProvider.custom = refl

unfoldable pub translation_provider_name : TranslationProvider → Bytes
translation_provider_name TranslationProvider.local_dictionary = codes "local"
translation_provider_name TranslationProvider.deep_lx = codes "deeplx"

unfoldable pub parse_translation_provider : Bytes → Option TranslationProvider
unfolding bytes_eq
parse_translation_provider name =
    if bytes_eq name (codes "local")
    then some TranslationProvider.local_dictionary
    else if bytes_eq name (codes "deeplx")
    then some TranslationProvider.deep_lx
    else none

pub parse_translation_provider-translation_provider_name :
    (x : TranslationProvider) → parse_translation_provider (translation_provider_name x) ≡ some x
unfolding translation_provider_name parse_translation_provider
parse_translation_provider-translation_provider_name TranslationProvider.local_dictionary = refl
parse_translation_provider-translation_provider_name TranslationProvider.deep_lx = refl
