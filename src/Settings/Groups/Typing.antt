-- ===== src/Settings/Groups/Typing.antt =====
-- These groups of keys are read back as they were stored (src/SettingsStore.cpp).
use msime_linux.Base.{true, ◌≡◌, refl, arith}
use msime_linux.Controller.Types.{is_full}
use msime_linux.Settings.Types.{InputSettings}
use msime_linux.Settings.KeyFile.{KeyFile, KeyFileLaws}
use msime_linux.Settings.Names.{
  mode_name, scheme_name, punctuation_lock_name, punctuation_name, preedit_style_name,
  candidate_window_layout_name, parse_mode, parse_scheme, parse_punctuation_lock, parse_punctuation,
  parse_preedit_style, parse_candidate_window_layout, parse_mode-mode_name,
  parse_scheme-scheme_name, parse_punctuation_lock-punctuation_lock_name,
  parse_punctuation-punctuation_name, parse_preedit_style-preedit_style_name,
  parse_candidate_window_layout-candidate_window_layout_name,
}
use msime_linux.Settings.Valid.{Checks, within}
use msime_linux.Settings.Load.{Loaded, width_of, load_modes, load_typing, load_helpcodes}
use msime_linux.Settings.Save.{writes, stored}
use msime_linux.Settings.Stored.{
  ChecksLaws, removed, written, value-stored, load_boolean_lem, load_integer_lem, load_string_lem,
  load_choice_lem,
}
use msime_linux.Settings.Ascii.{
  mode_name-is_ascii, scheme_name-is_ascii, punctuation_lock_name-is_ascii,
  punctuation_name-is_ascii, preedit_style_name-is_ascii, candidate_window_layout_name-is_ascii,
}
use msime_linux.Settings.Fields.{width_of-is_full}

module _ {F : Type 0} (G : KeyFile F) (K : Checks) (glib : KeyFileLaws G K.utf8_validate)
    (laws : ChecksLaws K) (s : InputSettings) (f : F) where
  pub load_modes-stored :
      (l : Loaded)
      → within 3 9 s.page_size ≡ true
      → load_modes G K (stored G s f) l ≡ record l {
        settings = record l.settings {
          mode = s.mode;
          default_mode = s.default_mode;
          scheme = s.scheme;
          page_size = s.page_size;
          punctuation_lock = s.punctuation_lock;
          punctuation_mode = s.punctuation_mode;
          character_width = s.character_width;
        };
      }
  unfolding load_modes removed written writes
  load_modes-stored l page_size =
      rw
        (
          load_choice_lem G K glib (stored G s f) parse_mode mode_name "input" "mode"
              (λ v s. record s { mode = v }) s.mode _
              (laws.ascii_is_utf8 _ (mode_name-is_ascii s.mode)) (parse_mode-mode_name s.mode)
              (value-stored G K glib "input" "mode" s f _ refl refl refl),
          load_choice_lem G K glib (stored G s f) parse_mode mode_name "input" "default-mode"
              (λ v s. record s { default_mode = v }) s.default_mode _
              (laws.ascii_is_utf8 _ (mode_name-is_ascii s.default_mode))
              (parse_mode-mode_name s.default_mode)
              (value-stored G K glib "input" "default-mode" s f _ refl refl refl),
          load_choice_lem G K glib (stored G s f) parse_scheme scheme_name "input" "scheme"
              (λ v s. record s { scheme = v }) s.scheme _
              (laws.ascii_is_utf8 _ (scheme_name-is_ascii s.scheme))
              (parse_scheme-scheme_name s.scheme)
              (value-stored G K glib "input" "scheme" s f _ refl refl refl),
          load_integer_lem G K glib (stored G s f) 3 9 "input" "page-size"
              (λ v s. record s { page_size = v }) s.page_size _ (omega arith) page_size
              (value-stored G K glib "input" "page-size" s f _ refl refl refl),
          load_choice_lem G K glib (stored G s f) parse_punctuation_lock punctuation_lock_name
              "input" "punctuation-lock" (λ v s. record s { punctuation_lock = v })
              s.punctuation_lock _
              (laws.ascii_is_utf8 _ (punctuation_lock_name-is_ascii s.punctuation_lock))
              (parse_punctuation_lock-punctuation_lock_name s.punctuation_lock)
              (value-stored G K glib "input" "punctuation-lock" s f _ refl refl refl),
          load_choice_lem G K glib (stored G s f) parse_punctuation punctuation_name "input"
              "punctuation" (λ v s. record s { punctuation_mode = v }) s.punctuation_mode _
              (laws.ascii_is_utf8 _ (punctuation_name-is_ascii s.punctuation_mode))
              (parse_punctuation-punctuation_name s.punctuation_mode)
              (value-stored G K glib "input" "punctuation" s f _ refl refl refl),
          load_boolean_lem G K glib (stored G s f) "input" "full-width"
              (λ v s. record s { character_width = width_of v }) (is_full s.character_width) _
              (value-stored G K glib "input" "full-width" s f _ refl refl refl),
          width_of-is_full s.character_width,
        )
        refl

  pub load_typing-stored :
      (l : Loaded)
      → load_typing G K (stored G s f) l ≡ record l {
        settings = record l.settings {
          comma_period_paging = s.comma_period_paging;
          word_to_character = s.word_to_character;
          bracket_paging = s.bracket_paging;
          smart_punctuation = s.smart_punctuation;
          smart_punctuation_repeat_to_chinese = s.smart_punctuation_repeat_to_chinese;
          paired_punctuation = s.paired_punctuation;
          preedit_style = s.preedit_style;
          candidate_window_layout = s.candidate_window_layout;
        };
      }
  unfolding load_typing removed written writes
  load_typing-stored l =
      rw
        (
          load_boolean_lem G K glib (stored G s f) "input" "comma-period-paging"
              (λ v s. record s { comma_period_paging = v }) s.comma_period_paging _
              (value-stored G K glib "input" "comma-period-paging" s f _ refl refl refl),
          load_boolean_lem G K glib (stored G s f) "input" "word-to-character"
              (λ v s. record s { word_to_character = v }) s.word_to_character _
              (value-stored G K glib "input" "word-to-character" s f _ refl refl refl),
          load_boolean_lem G K glib (stored G s f) "input" "bracket-paging"
              (λ v s. record s { bracket_paging = v }) s.bracket_paging _
              (value-stored G K glib "input" "bracket-paging" s f _ refl refl refl),
          load_boolean_lem G K glib (stored G s f) "input" "smart-punctuation"
              (λ v s. record s { smart_punctuation = v }) s.smart_punctuation _
              (value-stored G K glib "input" "smart-punctuation" s f _ refl refl refl),
          load_boolean_lem G K glib (stored G s f) "input" "smart-punctuation-repeat-to-chinese"
              (λ v s. record s { smart_punctuation_repeat_to_chinese = v })
              s.smart_punctuation_repeat_to_chinese _
              (value-stored G K glib "input" "smart-punctuation-repeat-to-chinese" s f _ refl refl
                refl),
          load_boolean_lem G K glib (stored G s f) "input" "paired-punctuation"
              (λ v s. record s { paired_punctuation = v }) s.paired_punctuation _
              (value-stored G K glib "input" "paired-punctuation" s f _ refl refl refl),
          load_choice_lem G K glib (stored G s f) parse_preedit_style preedit_style_name "input"
              "preedit-style" (λ v s. record s { preedit_style = v }) s.preedit_style _
              (laws.ascii_is_utf8 _ (preedit_style_name-is_ascii s.preedit_style))
              (parse_preedit_style-preedit_style_name s.preedit_style)
              (value-stored G K glib "input" "preedit-style" s f _ refl refl refl),
          load_choice_lem G K glib (stored G s f) parse_candidate_window_layout
              candidate_window_layout_name "input" "candidate-window-layout"
              (λ v s. record s { candidate_window_layout = v }) s.candidate_window_layout _
              (laws.ascii_is_utf8 _
                (candidate_window_layout_name-is_ascii s.candidate_window_layout))
              (parse_candidate_window_layout-candidate_window_layout_name s.candidate_window_layout)
              (value-stored G K glib "input" "candidate-window-layout" s f _ refl refl refl),
        )
        refl

  pub load_helpcodes-stored :
      (l : Loaded)
      → K.is_supported_helpcode_schema s.quanpin_helpcode_schema ≡ true
      → K.is_supported_helpcode_schema s.shuangpin_helpcode_schema ≡ true
      → load_helpcodes G K (stored G s f) l ≡ record l {
        settings = record l.settings {
          quanpin_helpcode_enabled = s.quanpin_helpcode_enabled;
          quanpin_helpcode_schema = s.quanpin_helpcode_schema;
          shuangpin_helpcode_enabled = s.shuangpin_helpcode_enabled;
          shuangpin_helpcode_schema = s.shuangpin_helpcode_schema;
        };
      }
  unfolding load_helpcodes removed written writes
  load_helpcodes-stored l quanpin_helpcode_schema shuangpin_helpcode_schema =
      rw
        (
          load_boolean_lem G K glib (stored G s f) "input" "quanpin-helpcode"
              (λ v s. record s { quanpin_helpcode_enabled = v }) s.quanpin_helpcode_enabled _
              (value-stored G K glib "input" "quanpin-helpcode" s f _ refl refl refl),
          load_string_lem G K glib (stored G s f) (K.is_supported_helpcode_schema) "input"
              "quanpin-helpcode-schema" (λ v s. record s { quanpin_helpcode_schema = v })
              s.quanpin_helpcode_schema _
              (laws.ascii_is_utf8 _ (laws.schema_is_ascii _ quanpin_helpcode_schema))
              quanpin_helpcode_schema
              (value-stored G K glib "input" "quanpin-helpcode-schema" s f _ refl refl refl),
          load_boolean_lem G K glib (stored G s f) "input" "shuangpin-helpcode"
              (λ v s. record s { shuangpin_helpcode_enabled = v }) s.shuangpin_helpcode_enabled _
              (value-stored G K glib "input" "shuangpin-helpcode" s f _ refl refl refl),
          load_string_lem G K glib (stored G s f) (K.is_supported_helpcode_schema) "input"
              "shuangpin-helpcode-schema" (λ v s. record s { shuangpin_helpcode_schema = v })
              s.shuangpin_helpcode_schema _
              (laws.ascii_is_utf8 _ (laws.schema_is_ascii _ shuangpin_helpcode_schema))
              shuangpin_helpcode_schema
              (value-stored G K glib "input" "shuangpin-helpcode-schema" s f _ refl refl refl),
        )
        refl
