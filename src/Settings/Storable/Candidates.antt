-- ===== src/Settings/Storable/Candidates.antt =====
-- Reading these groups of keys keeps settings storable (src/SettingsStore.cpp).
use msime_linux.Base.{part-all_of, all_of-set}
use msime_linux.Settings.KeyFile.{KeyFile}
use msime_linux.Settings.Valid.{
  Checks, valid_online_settings, valid_voice_settings, valid_input_settings, online_conditions,
  voice_conditions, input_conditions,
}
use msime_linux.Settings.Names.{parse_frequency_adjustment}
use msime_linux.Settings.Load.{
  Loaded, load_boolean, load_integer, load_choice, load_frequency, load_candidates, load_online,
}
use msime_linux.Settings.Keeps.{silenced, Storable, boolean-keeps, choice-keeps, integer-keeps}

module _ {F : Type 0} (G : KeyFile F) (K : Checks) (f : F) where
  pub load_frequency-Storable :
      (l : Loaded) → Storable G K f l.settings → Storable G K f (load_frequency G K f l).settings
  unfolding load_frequency Storable silenced valid_input_settings valid_online_settings
      valid_voice_settings input_conditions online_conditions voice_conditions
  load_frequency-Storable l0 h0 =
      let l1 : Loaded =
        load_choice G f parse_frequency_adjustment "input" "frequency-adjustment"
          (λ v s. record s { frequency_adjustment_mode = v }) l0 in
      let h1 : Storable G K f l1.settings =
        choice-keeps G f (Storable G K f) parse_frequency_adjustment "input" "frequency-adjustment"
          (λ v s. record s { frequency_adjustment_mode = v }) l0 (λ v. h0) h0 in
      let l2 : Loaded =
        load_integer G f 1 10 "input" "frequency-trigger-count"
          (λ v s. record s { frequency_trigger_count = v }) l1 in
      let h2 : Storable G K f l2.settings =
        integer-keeps G f (Storable G K f) 1 10 "input" "frequency-trigger-count"
          (λ v s. record s { frequency_trigger_count = v }) l1
          (λ v r. all_of-set (input_conditions K (silenced l1.settings)) 3 _ r h1) h1 in
      let l3 : Loaded =
        load_integer G f 1 10 "input" "frequency-linear-step"
          (λ v s. record s { frequency_linear_step = v }) l2 in
      let h3 : Storable G K f l3.settings =
        integer-keeps G f (Storable G K f) 1 10 "input" "frequency-linear-step"
          (λ v s. record s { frequency_linear_step = v }) l2
          (λ v r. all_of-set (input_conditions K (silenced l2.settings)) 4 _ r h2) h2 in
      h3

  pub load_candidates-Storable :
      (l : Loaded) → Storable G K f l.settings → Storable G K f (load_candidates G K f l).settings
  unfolding load_candidates Storable silenced valid_input_settings valid_online_settings
      valid_voice_settings input_conditions online_conditions voice_conditions
  load_candidates-Storable l0 h0 =
      let l1 : Loaded =
        load_boolean G f "input" "unicode-mode" (λ v s. record s { unicode_mode_enabled = v }) l0 in
      let h1 : Storable G K f l1.settings =
        boolean-keeps G f (Storable G K f) "input" "unicode-mode"
          (λ v s. record s { unicode_mode_enabled = v }) l0 (λ v. h0) h0 in
      let l2 : Loaded =
        load_boolean G f "input" "super-jianpin-mode"
          (λ v s. record s { super_jianpin_mode_enabled = v }) l1 in
      let h2 : Storable G K f l2.settings =
        boolean-keeps G f (Storable G K f) "input" "super-jianpin-mode"
          (λ v s. record s { super_jianpin_mode_enabled = v }) l1 (λ v. h1) h1 in
      let l3 : Loaded =
        load_boolean G f "input" "temporary-english-mode"
          (λ v s. record s { temporary_english_mode_enabled = v }) l2 in
      let h3 : Storable G K f l3.settings =
        boolean-keeps G f (Storable G K f) "input" "temporary-english-mode"
          (λ v s. record s { temporary_english_mode_enabled = v }) l2 (λ v. h2) h2 in
      let l4 : Loaded =
        load_boolean G f "input" "temporary-japanese-mode"
          (λ v s. record s { temporary_japanese_mode_enabled = v }) l3 in
      let h4 : Storable G K f l4.settings =
        boolean-keeps G f (Storable G K f) "input" "temporary-japanese-mode"
          (λ v s. record s { temporary_japanese_mode_enabled = v }) l3 (λ v. h3) h3 in
      let l5 : Loaded =
        load_boolean G f "input" "mixed-english-candidates"
          (λ v s. record s { mixed_english_candidates_enabled = v }) l4 in
      let h5 : Storable G K f l5.settings =
        boolean-keeps G f (Storable G K f) "input" "mixed-english-candidates"
          (λ v s. record s { mixed_english_candidates_enabled = v }) l4 (λ v. h4) h4 in
      let l6 : Loaded =
        load_integer G f 1 8 "input" "mixed-english-minimum-prefix"
          (λ v s. record s { mixed_english_minimum_prefix = v }) l5 in
      let h6 : Storable G K f l6.settings =
        integer-keeps G f (Storable G K f) 1 8 "input" "mixed-english-minimum-prefix"
          (λ v s. record s { mixed_english_minimum_prefix = v }) l5
          (λ v r. all_of-set (input_conditions K (silenced l5.settings)) 5 _ r h5) h5 in
      let l7 : Loaded =
        load_boolean G f "input" "mixed-emoji-candidates"
          (λ v s. record s { mixed_emoji_candidates_enabled = v }) l6 in
      let h7 : Storable G K f l7.settings =
        boolean-keeps G f (Storable G K f) "input" "mixed-emoji-candidates"
          (λ v s. record s { mixed_emoji_candidates_enabled = v }) l6 (λ v. h6) h6 in
      let l8 : Loaded =
        load_boolean G f "input" "mixed-kaomoji-candidates"
          (λ v s. record s { mixed_kaomoji_candidates_enabled = v }) l7 in
      let h8 : Storable G K f l8.settings =
        boolean-keeps G f (Storable G K f) "input" "mixed-kaomoji-candidates"
          (λ v s. record s { mixed_kaomoji_candidates_enabled = v }) l7 (λ v. h7) h7 in
      h8

  pub load_online-Storable :
      (l : Loaded) → Storable G K f l.settings → Storable G K f (load_online G K f l).settings
  unfolding load_online Storable silenced valid_input_settings valid_online_settings
      valid_voice_settings input_conditions online_conditions voice_conditions
  load_online-Storable l0 h0 =
      let l1 : Loaded =
        load_boolean G f "online" "cloud-enabled"
          (λ v s. record s { online = record s.online { cloud_candidates_enabled = v } }) l0 in
      let h1 : Storable G K f l1.settings =
        boolean-keeps G f (Storable G K f) "online" "cloud-enabled"
          (λ v s. record s { online = record s.online { cloud_candidates_enabled = v } }) l0
          (λ v. h0) h0 in
      let l2 : Loaded =
        load_integer G f 100 10000 "online" "connect-timeout-ms"
          (λ v s. record s { online = record s.online { connect_timeout = v } }) l1 in
      let h2 : Storable G K f l2.settings =
        integer-keeps G f (Storable G K f) 100 10000 "online" "connect-timeout-ms"
          (λ v s. record s { online = record s.online { connect_timeout = v } }) l1
          (λ v r.
            all_of-set (input_conditions K (silenced l1.settings)) 6 _
              (all_of-set (online_conditions K l1.settings.online) 6 _ r
                (part-all_of (input_conditions K (silenced l1.settings)) 6 h1))
              h1)
          h1 in
      let l3 : Loaded =
        load_integer G f 500 30000 "online" "total-timeout-ms"
          (λ v s. record s { online = record s.online { total_timeout = v } }) l2 in
      let h3 : Storable G K f l3.settings =
        integer-keeps G f (Storable G K f) 500 30000 "online" "total-timeout-ms"
          (λ v s. record s { online = record s.online { total_timeout = v } }) l2
          (λ v r.
            all_of-set (input_conditions K (silenced l2.settings)) 6 _
              (all_of-set (online_conditions K l2.settings.online) 7 _ r
                (part-all_of (input_conditions K (silenced l2.settings)) 6 h2))
              h2)
          h2 in
      h3
