-- ===== src/Settings/Ascii.antt =====
-- The names and texts that are stored are ones that GLib gives back (src/SettingsStore.cpp).
use msime_linux.Base.{
  ℕ, Bool, true, false, ◌&&◌, List, [], ◌∷◌, Bytes, bytes_eq, bytes_eq_iff, ◌≡◌, refl, sym, subst,
  Bool-cases, inl, inr, arith,
}
use msime_linux.Controller.Types.{InputMode, PunctuationMode, PunctuationLock, PreeditStyle}
use msime_linux.Settings.Types.{
  SchemeType, FrequencyAdjustmentMode, AiProvider, TranslationProvider, CandidateWindowLayout,
}
use msime_linux.Settings.Names.{
  mode_name, scheme_name, punctuation_lock_name, punctuation_name, preedit_style_name,
  candidate_window_layout_name, frequency_adjustment_name, ai_provider_name,
  translation_provider_name,
}
use msime_linux.Settings.Valid.{
  Checks, valid_utf8_text, valid_https_endpoint, valid_translation_language, is_member, languages,
}
use msime_linux.Settings.Stored.{is_ascii, ChecksLaws}

pub mode_name-is_ascii : (x : InputMode) → is_ascii (mode_name x) ≡ true
unfolding mode_name is_ascii
mode_name-is_ascii InputMode.ime = refl
mode_name-is_ascii InputMode.direct = refl

pub scheme_name-is_ascii : (x : SchemeType) → is_ascii (scheme_name x) ≡ true
unfolding scheme_name is_ascii
scheme_name-is_ascii SchemeType.quanpin = refl
scheme_name-is_ascii SchemeType.shuangpin = refl
scheme_name-is_ascii SchemeType.wubi = refl
scheme_name-is_ascii SchemeType.japanese_romaji = refl

pub punctuation_lock_name-is_ascii :
    (x : PunctuationLock) → is_ascii (punctuation_lock_name x) ≡ true
unfolding punctuation_lock_name is_ascii
punctuation_lock_name-is_ascii PunctuationLock.follow = refl
punctuation_lock_name-is_ascii PunctuationLock.chinese = refl
punctuation_lock_name-is_ascii PunctuationLock.english = refl

pub punctuation_name-is_ascii : (x : PunctuationMode) → is_ascii (punctuation_name x) ≡ true
unfolding punctuation_name is_ascii
punctuation_name-is_ascii PunctuationMode.chinese = refl
punctuation_name-is_ascii PunctuationMode.english = refl

pub preedit_style_name-is_ascii : (x : PreeditStyle) → is_ascii (preedit_style_name x) ≡ true
unfolding preedit_style_name is_ascii
preedit_style_name-is_ascii PreeditStyle.raw = refl
preedit_style_name-is_ascii PreeditStyle.pinyin = refl
preedit_style_name-is_ascii PreeditStyle.hidden = refl

pub candidate_window_layout_name-is_ascii :
    (x : CandidateWindowLayout) → is_ascii (candidate_window_layout_name x) ≡ true
unfolding candidate_window_layout_name is_ascii
candidate_window_layout_name-is_ascii CandidateWindowLayout.vertical = refl
candidate_window_layout_name-is_ascii CandidateWindowLayout.horizontal = refl

pub frequency_adjustment_name-is_ascii :
    (x : FrequencyAdjustmentMode) → is_ascii (frequency_adjustment_name x) ≡ true
unfolding frequency_adjustment_name is_ascii
frequency_adjustment_name-is_ascii FrequencyAdjustmentMode.disabled = refl
frequency_adjustment_name-is_ascii FrequencyAdjustmentMode.pin = refl
frequency_adjustment_name-is_ascii FrequencyAdjustmentMode.halve = refl
frequency_adjustment_name-is_ascii FrequencyAdjustmentMode.linear = refl
frequency_adjustment_name-is_ascii FrequencyAdjustmentMode.promote = refl

pub ai_provider_name-is_ascii : (x : AiProvider) → is_ascii (ai_provider_name x) ≡ true
unfolding ai_provider_name is_ascii
ai_provider_name-is_ascii AiProvider.deep_seek = refl
ai_provider_name-is_ascii AiProvider.open_ai = refl
ai_provider_name-is_ascii AiProvider.silicon_flow = refl
ai_provider_name-is_ascii AiProvider.groq = refl
ai_provider_name-is_ascii AiProvider.custom = refl

pub translation_provider_name-is_ascii :
    (x : TranslationProvider) → is_ascii (translation_provider_name x) ≡ true
unfolding translation_provider_name is_ascii
translation_provider_name-is_ascii TranslationProvider.local_dictionary = refl
translation_provider_name-is_ascii TranslationProvider.deep_lx = refl

all_ascii : List Bytes → Bool
unfolding is_ascii
all_ascii [] = true
all_ascii (x ∷ xs) = is_ascii x && all_ascii xs

languages_ascii : all_ascii languages ≡ true
unfolding all_ascii
languages_ascii = refl

is_member-ascii :
    (v : Bytes) (xs : List Bytes) → all_ascii xs ≡ true → is_member v xs ≡ true → is_ascii v ≡ true
unfolding is_member all_ascii
is_member-ascii v [] a h = absurd (cc h)
is_member-ascii v (x ∷ xs) a h = elim (Bool-cases (bytes_eq v x)) [
  | inl same ↦ subst (λ y. is_ascii y ≡ true) (sym ((bytes_eq_iff v x).0 same)) (ground (arith, a))
  | inr other ↦ is_member-ascii v xs (ground (arith, a)) (ground (arith, h, other))
]

pub valid_translation_language-is_ascii :
    (v : Bytes) → valid_translation_language v ≡ true → is_ascii v ≡ true
unfolding valid_translation_language
valid_translation_language-is_ascii v h = is_member-ascii v languages languages_ascii h

module _ (K : Checks) (laws : ChecksLaws K) where
  pub utf8_of_text :
      (maximum : ℕ) (newlines : Bool) (v : Bytes)
      → valid_utf8_text K maximum newlines v ≡ true
      → K.utf8_validate v ≡ true
  unfolding valid_utf8_text
  utf8_of_text maximum newlines v h = ground (arith, h)

  pub utf8_of_endpoint : (v : Bytes) → valid_https_endpoint K v ≡ true → K.utf8_validate v ≡ true
  unfolding valid_https_endpoint is_ascii
  utf8_of_endpoint [] h = laws.ascii_is_utf8 [] refl
  utf8_of_endpoint (c ∷ v) h = utf8_of_text 2048 false (c ∷ v) (ground (arith, h))
