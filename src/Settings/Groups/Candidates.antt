-- ===== src/Settings/Groups/Candidates.antt =====
-- These groups of keys are read back as they were stored (src/SettingsStore.cpp).
use msime_linux.Base.{true, ◌≡◌, refl, arith}
use msime_linux.Settings.Types.{InputSettings}
use msime_linux.Settings.KeyFile.{KeyFile, KeyFileLaws}
use msime_linux.Settings.Names.{
  frequency_adjustment_name, parse_frequency_adjustment,
  parse_frequency_adjustment-frequency_adjustment_name,
}
use msime_linux.Settings.Valid.{Checks, within}
use msime_linux.Settings.Load.{Loaded, load_frequency, load_candidates, load_online}
use msime_linux.Settings.Save.{writes, stored}
use msime_linux.Settings.Stored.{
  ChecksLaws, removed, written, value-stored, load_boolean_lem, load_integer_lem, load_choice_lem,
}
use msime_linux.Settings.Ascii.{frequency_adjustment_name-is_ascii}

module _ {F : Type 0} (G : KeyFile F) (K : Checks) (glib : KeyFileLaws G K.utf8_validate)
    (laws : ChecksLaws K) (s : InputSettings) (f : F) where
  pub load_frequency-stored :
      (l : Loaded)
      → within 1 10 s.frequency_trigger_count ≡ true
      → within 1 10 s.frequency_linear_step ≡ true
      → load_frequency G K (stored G s f) l ≡ record l {
        settings = record l.settings {
          frequency_adjustment_mode = s.frequency_adjustment_mode;
          frequency_trigger_count = s.frequency_trigger_count;
          frequency_linear_step = s.frequency_linear_step;
        };
      }
  unfolding load_frequency removed written writes
  load_frequency-stored l frequency_trigger_count frequency_linear_step =
      rw
        (
          load_choice_lem G K glib (stored G s f) parse_frequency_adjustment
              frequency_adjustment_name "input" "frequency-adjustment"
              (λ v s. record s { frequency_adjustment_mode = v }) s.frequency_adjustment_mode _
              (laws.ascii_is_utf8 _
                (frequency_adjustment_name-is_ascii s.frequency_adjustment_mode))
              (parse_frequency_adjustment-frequency_adjustment_name s.frequency_adjustment_mode)
              (value-stored G K glib "input" "frequency-adjustment" s f _ refl refl refl),
          load_integer_lem G K glib (stored G s f) 1 10 "input" "frequency-trigger-count"
              (λ v s. record s { frequency_trigger_count = v }) s.frequency_trigger_count _
              (omega arith) frequency_trigger_count
              (value-stored G K glib "input" "frequency-trigger-count" s f _ refl refl refl),
          load_integer_lem G K glib (stored G s f) 1 10 "input" "frequency-linear-step"
              (λ v s. record s { frequency_linear_step = v }) s.frequency_linear_step _
              (omega arith) frequency_linear_step
              (value-stored G K glib "input" "frequency-linear-step" s f _ refl refl refl),
        )
        refl

  pub load_candidates-stored :
      (l : Loaded)
      → within 1 8 s.mixed_english_minimum_prefix ≡ true
      → load_candidates G K (stored G s f) l ≡ record l {
        settings = record l.settings {
          unicode_mode_enabled = s.unicode_mode_enabled;
          super_jianpin_mode_enabled = s.super_jianpin_mode_enabled;
          temporary_english_mode_enabled = s.temporary_english_mode_enabled;
          temporary_japanese_mode_enabled = s.temporary_japanese_mode_enabled;
          mixed_english_candidates_enabled = s.mixed_english_candidates_enabled;
          mixed_english_minimum_prefix = s.mixed_english_minimum_prefix;
          mixed_emoji_candidates_enabled = s.mixed_emoji_candidates_enabled;
          mixed_kaomoji_candidates_enabled = s.mixed_kaomoji_candidates_enabled;
        };
      }
  unfolding load_candidates removed written writes
  load_candidates-stored l mixed_english_minimum_prefix =
      rw
        (
          load_boolean_lem G K glib (stored G s f) "input" "unicode-mode"
              (λ v s. record s { unicode_mode_enabled = v }) s.unicode_mode_enabled _
              (value-stored G K glib "input" "unicode-mode" s f _ refl refl refl),
          load_boolean_lem G K glib (stored G s f) "input" "super-jianpin-mode"
              (λ v s. record s { super_jianpin_mode_enabled = v }) s.super_jianpin_mode_enabled _
              (value-stored G K glib "input" "super-jianpin-mode" s f _ refl refl refl),
          load_boolean_lem G K glib (stored G s f) "input" "temporary-english-mode"
              (λ v s. record s { temporary_english_mode_enabled = v })
              s.temporary_english_mode_enabled _
              (value-stored G K glib "input" "temporary-english-mode" s f _ refl refl refl),
          load_boolean_lem G K glib (stored G s f) "input" "temporary-japanese-mode"
              (λ v s. record s { temporary_japanese_mode_enabled = v })
              s.temporary_japanese_mode_enabled _
              (value-stored G K glib "input" "temporary-japanese-mode" s f _ refl refl refl),
          load_boolean_lem G K glib (stored G s f) "input" "mixed-english-candidates"
              (λ v s. record s { mixed_english_candidates_enabled = v })
              s.mixed_english_candidates_enabled _
              (value-stored G K glib "input" "mixed-english-candidates" s f _ refl refl refl),
          load_integer_lem G K glib (stored G s f) 1 8 "input" "mixed-english-minimum-prefix"
              (λ v s. record s { mixed_english_minimum_prefix = v }) s.mixed_english_minimum_prefix
              _ (omega arith) mixed_english_minimum_prefix
              (value-stored G K glib "input" "mixed-english-minimum-prefix" s f _ refl refl refl),
          load_boolean_lem G K glib (stored G s f) "input" "mixed-emoji-candidates"
              (λ v s. record s { mixed_emoji_candidates_enabled = v })
              s.mixed_emoji_candidates_enabled _
              (value-stored G K glib "input" "mixed-emoji-candidates" s f _ refl refl refl),
          load_boolean_lem G K glib (stored G s f) "input" "mixed-kaomoji-candidates"
              (λ v s. record s { mixed_kaomoji_candidates_enabled = v })
              s.mixed_kaomoji_candidates_enabled _
              (value-stored G K glib "input" "mixed-kaomoji-candidates" s f _ refl refl refl),
        )
        refl

  pub load_online-stored :
      (l : Loaded)
      → within 100 10000 s.online.connect_timeout ≡ true
      → within 500 30000 s.online.total_timeout ≡ true
      → load_online G K (stored G s f) l ≡ record l {
        settings = record l.settings {
          online = record l.settings.online {
            cloud_candidates_enabled = s.online.cloud_candidates_enabled;
            connect_timeout = s.online.connect_timeout;
            total_timeout = s.online.total_timeout;
          };
        };
      }
  unfolding load_online removed written writes
  load_online-stored l online_connect_timeout online_total_timeout =
      rw
        (
          load_boolean_lem G K glib (stored G s f) "online" "cloud-enabled"
              (λ v s. record s { online = record s.online { cloud_candidates_enabled = v } })
              s.online.cloud_candidates_enabled _
              (value-stored G K glib "online" "cloud-enabled" s f _ refl refl refl),
          load_integer_lem G K glib (stored G s f) 100 10000 "online" "connect-timeout-ms"
              (λ v s. record s { online = record s.online { connect_timeout = v } })
              s.online.connect_timeout _ (omega arith) online_connect_timeout
              (value-stored G K glib "online" "connect-timeout-ms" s f _ refl refl refl),
          load_integer_lem G K glib (stored G s f) 500 30000 "online" "total-timeout-ms"
              (λ v s. record s { online = record s.online { total_timeout = v } })
              s.online.total_timeout _ (omega arith) online_total_timeout
              (value-stored G K glib "online" "total-timeout-ms" s f _ refl refl refl),
        )
        refl
