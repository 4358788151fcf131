-- ===== src/Settings/Storable/Typing.antt =====
-- Reading these groups of keys keeps settings storable (src/SettingsStore.cpp).
use msime_linux.Base.{all_of-set}
use msime_linux.Settings.KeyFile.{KeyFile}
use msime_linux.Settings.Valid.{
  Checks, valid_online_settings, valid_voice_settings, valid_input_settings, online_conditions,
  voice_conditions, input_conditions,
}
use msime_linux.Settings.Names.{
  parse_mode, parse_scheme, parse_punctuation_lock, parse_punctuation, parse_preedit_style,
  parse_candidate_window_layout,
}
use msime_linux.Settings.Load.{
  Loaded, width_of, load_boolean, load_integer, load_string, load_choice, load_modes, load_typing,
  load_helpcodes,
}
use msime_linux.Settings.Keeps.{
  silenced, Storable, boolean-keeps, choice-keeps, integer-keeps, string-keeps,
}

module _ {F : Type 0} (G : KeyFile F) (K : Checks) (f : F) where
  pub load_modes-Storable :
      (l : Loaded) → Storable G K f l.settings → Storable G K f (load_modes G K f l).settings
  unfolding load_modes Storable silenced valid_input_settings valid_online_settings
      valid_voice_settings input_conditions online_conditions voice_conditions
  load_modes-Storable l0 h0 =
      let l1 : Loaded =
        load_choice G f parse_mode "input" "mode" (λ v s. record s { mode = v }) l0 in
      let h1 : Storable G K f l1.settings =
        choice-keeps G f (Storable G K f) parse_mode "input" "mode" (λ v s. record s { mode = v })
          l0 (λ v. h0) h0 in
      let l2 : Loaded =
        load_choice G f parse_mode "input" "default-mode" (λ v s. record s { default_mode = v })
          l1 in
      let h2 : Storable G K f l2.settings =
        choice-keeps G f (Storable G K f) parse_mode "input" "default-mode"
          (λ v s. record s { default_mode = v }) l1 (λ v. h1) h1 in
      let l3 : Loaded =
        load_choice G f parse_scheme "input" "scheme" (λ v s. record s { scheme = v }) l2 in
      let h3 : Storable G K f l3.settings =
        choice-keeps G f (Storable G K f) parse_scheme "input" "scheme"
          (λ v s. record s { scheme = v }) l2 (λ v. h2) h2 in
      let l4 : Loaded =
        load_integer G f 3 9 "input" "page-size" (λ v s. record s { page_size = v }) l3 in
      let h4 : Storable G K f l4.settings =
        integer-keeps G f (Storable G K f) 3 9 "input" "page-size"
          (λ v s. record s { page_size = v }) l3
          (λ v r. all_of-set (input_conditions K (silenced l3.settings)) 0 _ r h3) h3 in
      let l5 : Loaded =
        load_choice G f parse_punctuation_lock "input" "punctuation-lock"
          (λ v s. record s { punctuation_lock = v }) l4 in
      let h5 : Storable G K f l5.settings =
        choice-keeps G f (Storable G K f) parse_punctuation_lock "input" "punctuation-lock"
          (λ v s. record s { punctuation_lock = v }) l4 (λ v. h4) h4 in
      let l6 : Loaded =
        load_choice G f parse_punctuation "input" "punctuation"
          (λ v s. record s { punctuation_mode = v }) l5 in
      let h6 : Storable G K f l6.settings =
        choice-keeps G f (Storable G K f) parse_punctuation "input" "punctuation"
          (λ v s. record s { punctuation_mode = v }) l5 (λ v. h5) h5 in
      let l7 : Loaded =
        load_boolean G f "input" "full-width" (λ v s. record s { character_width = width_of v })
          l6 in
      let h7 : Storable G K f l7.settings =
        boolean-keeps G f (Storable G K f) "input" "full-width"
          (λ v s. record s { character_width = width_of v }) l6 (λ v. h6) h6 in
      h7

  pub load_typing-Storable :
      (l : Loaded) → Storable G K f l.settings → Storable G K f (load_typing G K f l).settings
  unfolding load_typing Storable silenced valid_input_settings valid_online_settings
      valid_voice_settings input_conditions online_conditions voice_conditions
  load_typing-Storable l0 h0 =
      let l1 : Loaded =
        load_boolean G f "input" "comma-period-paging" (λ v s. record s { comma_period_paging = v })
          l0 in
      let h1 : Storable G K f l1.settings =
        boolean-keeps G f (Storable G K f) "input" "comma-period-paging"
          (λ v s. record s { comma_period_paging = v }) l0 (λ v. h0) h0 in
      let l2 : Loaded =
        load_boolean G f "input" "word-to-character" (λ v s. record s { word_to_character = v })
          l1 in
      let h2 : Storable G K f l2.settings =
        boolean-keeps G f (Storable G K f) "input" "word-to-character"
          (λ v s. record s { word_to_character = v }) l1 (λ v. h1) h1 in
      let l3 : Loaded =
        load_boolean G f "input" "bracket-paging" (λ v s. record s { bracket_paging = v }) l2 in
      let h3 : Storable G K f l3.settings =
        boolean-keeps G f (Storable G K f) "input" "bracket-paging"
          (λ v s. record s { bracket_paging = v }) l2 (λ v. h2) h2 in
      let l4 : Loaded =
        load_boolean G f "input" "smart-punctuation" (λ v s. record s { smart_punctuation = v })
          l3 in
      let h4 : Storable G K f l4.settings =
        boolean-keeps G f (Storable G K f) "input" "smart-punctuation"
          (λ v s. record s { smart_punctuation = v }) l3 (λ v. h3) h3 in
      let l5 : Loaded =
        load_boolean G f "input" "smart-punctuation-repeat-to-chinese"
          (λ v s. record s { smart_punctuation_repeat_to_chinese = v }) l4 in
      let h5 : Storable G K f l5.settings =
        boolean-keeps G f (Storable G K f) "input" "smart-punctuation-repeat-to-chinese"
          (λ v s. record s { smart_punctuation_repeat_to_chinese = v }) l4 (λ v. h4) h4 in
      let l6 : Loaded =
        load_boolean G f "input" "paired-punctuation" (λ v s. record s { paired_punctuation = v })
          l5 in
      let h6 : Storable G K f l6.settings =
        boolean-keeps G f (Storable G K f) "input" "paired-punctuation"
          (λ v s. record s { paired_punctuation = v }) l5 (λ v. h5) h5 in
      let l7 : Loaded =
        load_choice G f parse_preedit_style "input" "preedit-style"
          (λ v s. record s { preedit_style = v }) l6 in
      let h7 : Storable G K f l7.settings =
        choice-keeps G f (Storable G K f) parse_preedit_style "input" "preedit-style"
          (λ v s. record s { preedit_style = v }) l6 (λ v. h6) h6 in
      let l8 : Loaded =
        load_choice G f parse_candidate_window_layout "input" "candidate-window-layout"
          (λ v s. record s { candidate_window_layout = v }) l7 in
      let h8 : Storable G K f l8.settings =
        choice-keeps G f (Storable G K f) parse_candidate_window_layout "input"
          "candidate-window-layout" (λ v s. record s { candidate_window_layout = v }) l7 (λ v. h7)
          h7 in
      h8

  pub load_helpcodes-Storable :
      (l : Loaded) → Storable G K f l.settings → Storable G K f (load_helpcodes G K f l).settings
  unfolding load_helpcodes Storable silenced valid_input_settings valid_online_settings
      valid_voice_settings input_conditions online_conditions voice_conditions
  load_helpcodes-Storable l0 h0 =
      let l1 : Loaded =
        load_boolean G f "input" "quanpin-helpcode"
          (λ v s. record s { quanpin_helpcode_enabled = v }) l0 in
      let h1 : Storable G K f l1.settings =
        boolean-keeps G f (Storable G K f) "input" "quanpin-helpcode"
          (λ v s. record s { quanpin_helpcode_enabled = v }) l0 (λ v. h0) h0 in
      let l2 : Loaded =
        load_string G f (K.is_supported_helpcode_schema) "input" "quanpin-helpcode-schema"
          (λ v s. record s { quanpin_helpcode_schema = v }) l1 in
      let h2 : Storable G K f l2.settings =
        string-keeps G f (Storable G K f) (K.is_supported_helpcode_schema) "input"
          "quanpin-helpcode-schema" (λ v s. record s { quanpin_helpcode_schema = v }) l1
          (λ v r. all_of-set (input_conditions K (silenced l1.settings)) 1 _ r h1) h1 in
      let l3 : Loaded =
        load_boolean G f "input" "shuangpin-helpcode"
          (λ v s. record s { shuangpin_helpcode_enabled = v }) l2 in
      let h3 : Storable G K f l3.settings =
        boolean-keeps G f (Storable G K f) "input" "shuangpin-helpcode"
          (λ v s. record s { shuangpin_helpcode_enabled = v }) l2 (λ v. h2) h2 in
      let l4 : Loaded =
        load_string G f (K.is_supported_helpcode_schema) "input" "shuangpin-helpcode-schema"
          (λ v s. record s { shuangpin_helpcode_schema = v }) l3 in
      let h4 : Storable G K f l4.settings =
        string-keeps G f (Storable G K f) (K.is_supported_helpcode_schema) "input"
          "shuangpin-helpcode-schema" (λ v s. record s { shuangpin_helpcode_schema = v }) l3
          (λ v r. all_of-set (input_conditions K (silenced l3.settings)) 2 _ r h3) h3 in
      h4
