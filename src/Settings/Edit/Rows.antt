-- ===== src/Settings/Edit/Rows.antt =====
-- The rows that are choices and numbers (src/SettingsUiModel.cpp).
use msime_linux.Base.{List, [], ◌∷◌, Bytes}
use Prim.Native.String.{String}
use msime_linux.Settings.Types.{InputSettings}
use msime_linux.Settings.Valid.{languages}
use msime_linux.Settings.Parse.{parse_integer, choose}
use msime_linux.Settings.Edit.Choices.{
  Edit, accept_if, modes, schemes, punctuations, punctuation_locks, widths, preedit_styles, layouts,
  frequency_adjustments, ai_providers, translation_providers, helpcode_schemas, voice_providers,
  one_of, select,
}
use msime_linux.Settings.Edit.Providers.{
  set_ai_provider, set_voice_provider, set_translation_provider,
}

unfoldable pub modes_edits : Bytes → InputSettings → List (String × Edit)
unfolding accept_if choose parse_integer
modes_edits v s =
    ("mode", accept_if (choose modes v) (λ a. record s { mode = a }))
    ∷ ("default-mode", accept_if (choose modes v) (λ a. record s { default_mode = a }))
    ∷ ("scheme", accept_if (choose schemes v) (λ a. record s { scheme = a }))
    ∷ ("page-size", accept_if (parse_integer 3 9 v) (λ n. record s { page_size = n }))
    ∷ ("punctuation", accept_if (choose punctuations v) (λ a. record s { punctuation_mode = a }))
    ∷ (
      "punctuation-lock",
      accept_if (choose punctuation_locks v) (λ a. record s { punctuation_lock = a }),
    )
    ∷ ("width", accept_if (choose widths v) (λ a. record s { character_width = a }))
    ∷ ("preedit-style", accept_if (choose preedit_styles v) (λ a. record s { preedit_style = a }))
    ∷ (
      "candidate-window-layout",
      accept_if (choose layouts v) (λ a. record s { candidate_window_layout = a }),
    )
    ∷ []

-- A setting of this group, and the settings of the groups after it.
unfoldable pub edit_modes : String → Bytes → InputSettings → Edit → Edit
unfolding modes_edits
edit_modes id v s otherwise = select (modes_edits v s) id otherwise

unfoldable pub numbers_edits : Bytes → InputSettings → List (String × Edit)
unfolding accept_if choose one_of parse_integer
numbers_edits v s =
    (
      "quanpin-helpcode-schema",
      accept_if (one_of helpcode_schemas v) (λ a. record s { quanpin_helpcode_schema = a }),
    )
    ∷ (
      "shuangpin-helpcode-schema",
      accept_if (one_of helpcode_schemas v) (λ a. record s { shuangpin_helpcode_schema = a }),
    )
    ∷ (
      "frequency-adjustment",
      accept_if (choose frequency_adjustments v) (λ a. record s { frequency_adjustment_mode = a }),
    )
    ∷ (
      "frequency-trigger-count",
      accept_if (parse_integer 1 10 v) (λ n. record s { frequency_trigger_count = n }),
    )
    ∷ (
      "frequency-linear-step",
      accept_if (parse_integer 1 10 v) (λ n. record s { frequency_linear_step = n }),
    )
    ∷ (
      "mixed-english-minimum-prefix",
      accept_if (parse_integer 1 8 v) (λ n. record s { mixed_english_minimum_prefix = n }),
    )
    ∷ (
      "connect-timeout-ms",
      accept_if (parse_integer 100 10000 v)
          (λ n. record s { online = record s.online { connect_timeout = n } }),
    )
    ∷ (
      "total-timeout-ms",
      accept_if (parse_integer 500 30000 v)
          (λ n. record s { online = record s.online { total_timeout = n } }),
    )
    ∷ []

-- A setting of this group, and the settings of the groups after it.
unfoldable pub edit_numbers : String → Bytes → InputSettings → Edit → Edit
unfolding numbers_edits
edit_numbers id v s otherwise = select (numbers_edits v s) id otherwise

unfoldable pub providers_edits : Bytes → InputSettings → List (String × Edit)
unfolding accept_if choose one_of parse_integer set_ai_provider set_voice_provider
    set_translation_provider
providers_edits v s =
    ("ai-provider", accept_if (choose ai_providers v) (λ a. set_ai_provider a s))
    ∷ ("voice-provider", accept_if (one_of voice_providers v) (λ a. set_voice_provider a s))
    ∷ (
      "ai-candidate-limit",
      accept_if (parse_integer 1 10 v) (λ n. record s {
        online = record s.online { ai = record s.online.ai { candidate_limit = n } };
      }),
    )
    ∷ (
      "translation-provider",
      accept_if (choose translation_providers v) (λ a. set_translation_provider a s),
    )
    ∷ (
      "translation-target-language",
      accept_if (one_of languages v)
          (λ a. record s { online = record s.online { translation_target_language = a } }),
    )
    ∷ []

-- A setting of this group, and the settings of the groups after it.
unfoldable pub edit_providers : String → Bytes → InputSettings → Edit → Edit
unfolding providers_edits
edit_providers id v s otherwise = select (providers_edits v s) id otherwise
