-- ===== src/Settings/Edit/Choices.antt =====
-- What an edit gives, and the names that a row offers (src/SettingsUiModel.cpp).
use msime_linux.Base.{Option, none, some, List, [], ◌∷◌, Bytes, codes, if◌then◌else◌}
use Prim.Native.String.{String}
use text.Mathlib.Text.{◌==◌}
use msime_linux.Controller.Types.{
  InputMode, PunctuationMode, PunctuationLock, CharacterWidth, PreeditStyle,
}
use msime_linux.Settings.Types.{
  InputSettings, SchemeType, FrequencyAdjustmentMode, AiProvider, TranslationProvider,
  CandidateWindowLayout,
}
use msime_linux.Settings.Valid.{is_member}

-- The message of a refusal.
pub data Refusal : Type 0 where
  invalid_value credential_characters empty_while_enabled empty_value : Refusal

-- The candidate settings, or a refusal, which keeps the present ones.
pub data Edit : Type 0 where
  accepted : InputSettings → Edit
  rejected : Refusal → Edit

unfoldable pub accept_if : {A : Type 0} → Option A → (A → InputSettings) → Edit
accept_if none set = rejected invalid_value
accept_if (some a) set = accepted (set a)

abbrev pub modes : List (Bytes × InputMode)
modes = (codes "ime", InputMode.ime) ∷ (codes "direct", InputMode.direct) ∷ []

abbrev pub schemes : List (Bytes × SchemeType)
schemes =
    (codes "quanpin", SchemeType.quanpin)
    ∷ (codes "shuangpin", SchemeType.shuangpin)
    ∷ (codes "wubi", SchemeType.wubi)
    ∷ (codes "japanese", SchemeType.japanese_romaji)
    ∷ []

abbrev pub punctuations : List (Bytes × PunctuationMode)
punctuations =
    (codes "chinese", PunctuationMode.chinese) ∷ (codes "english", PunctuationMode.english) ∷ []

abbrev pub punctuation_locks : List (Bytes × PunctuationLock)
punctuation_locks =
    (codes "follow", PunctuationLock.follow)
    ∷ (codes "chinese", PunctuationLock.chinese)
    ∷ (codes "english", PunctuationLock.english)
    ∷ []

abbrev pub widths : List (Bytes × CharacterWidth)
widths = (codes "half", CharacterWidth.half) ∷ (codes "full", CharacterWidth.full) ∷ []

abbrev pub preedit_styles : List (Bytes × PreeditStyle)
preedit_styles =
    (codes "raw", PreeditStyle.raw)
    ∷ (codes "pinyin", PreeditStyle.pinyin)
    ∷ (codes "hidden", PreeditStyle.hidden)
    ∷ []

abbrev pub layouts : List (Bytes × CandidateWindowLayout)
layouts =
    (codes "vertical", CandidateWindowLayout.vertical)
    ∷ (codes "horizontal", CandidateWindowLayout.horizontal)
    ∷ []

abbrev pub frequency_adjustments : List (Bytes × FrequencyAdjustmentMode)
frequency_adjustments =
    (codes "disabled", FrequencyAdjustmentMode.disabled)
    ∷ (codes "pin", FrequencyAdjustmentMode.pin)
    ∷ (codes "halve", FrequencyAdjustmentMode.halve)
    ∷ (codes "linear", FrequencyAdjustmentMode.linear)
    ∷ (codes "promote", FrequencyAdjustmentMode.promote)
    ∷ []

abbrev pub ai_providers : List (Bytes × AiProvider)
ai_providers =
    (codes "deepseek", AiProvider.deep_seek)
    ∷ (codes "openai", AiProvider.open_ai)
    ∷ (codes "siliconflow", AiProvider.silicon_flow)
    ∷ (codes "groq", AiProvider.groq)
    ∷ (codes "custom", AiProvider.custom)
    ∷ []

abbrev pub translation_providers : List (Bytes × TranslationProvider)
translation_providers =
    (codes "local", TranslationProvider.local_dictionary)
    ∷ (codes "deeplx", TranslationProvider.deep_lx)
    ∷ []

abbrev pub helpcode_schemas : List Bytes
helpcode_schemas =
    codes "lantian"
    ∷ codes "ziranma"
    ∷ codes "shouyou2_0"
    ∷ codes "shouyouplus"
    ∷ codes "xiaohe"
    ∷ []

abbrev pub voice_providers : List Bytes
voice_providers = codes "openai" ∷ codes "siliconflow" ∷ codes "groq" ∷ codes "custom" ∷ []

-- `set_choice`, where the value itself is taken.
unfoldable pub one_of : List Bytes → Bytes → Option Bytes
unfolding is_member
one_of names value = if is_member value names then some value else none

-- A chain of comparisons of a name: the first that is equal decides.
abbrev pub select : {A : Type 0} → List (String × A) → String → A → A
select [] id otherwise = otherwise
select ((name, a) ∷ rest) id otherwise = if id == name then a else select rest id otherwise
