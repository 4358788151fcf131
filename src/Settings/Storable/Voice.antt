-- ===== src/Settings/Storable/Voice.antt =====
-- Reading these groups of keys keeps settings storable (src/SettingsStore.cpp).
use msime_linux.Base.{true, false, set, part-all_of, all_of-set}
use msime_linux.Settings.KeyFile.{KeyFile}
use msime_linux.Settings.Valid.{
  Checks, valid_utf8_text, valid_https_endpoint, valid_online_settings, valid_voice_settings,
  valid_input_settings, online_conditions, voice_conditions, input_conditions,
}
use msime_linux.Settings.Fields.{nonempty_text-valid}
use msime_linux.Settings.Load.{
  Loaded, nonempty_text, load_boolean, load_string, load_utilities, load_shortcuts, load_voice,
}
use msime_linux.Settings.Keeps.{
  silenced, Storable, boolean-keeps, string-keeps, nonempty_text_nonempty,
}

module _ {F : Type 0} (G : KeyFile F) (K : Checks) (f : F) where
  pub load_utilities-Storable :
      (l : Loaded) → Storable G K f l.settings → Storable G K f (load_utilities G K f l).settings
  unfolding load_utilities Storable silenced valid_input_settings valid_online_settings
      valid_voice_settings input_conditions online_conditions voice_conditions
  load_utilities-Storable l0 h0 =
      let l1 : Loaded =
        load_boolean G f "utility" "quick-phrase-mode"
          (λ v s. record s { quick_phrase_mode_enabled = v }) l0 in
      let h1 : Storable G K f l1.settings =
        boolean-keeps G f (Storable G K f) "utility" "quick-phrase-mode"
          (λ v s. record s { quick_phrase_mode_enabled = v }) l0 (λ v. h0) h0 in
      let l2 : Loaded =
        load_boolean G f "utility" "date-time-mode" (λ v s. record s { date_time_mode_enabled = v })
          l1 in
      let h2 : Storable G K f l2.settings =
        boolean-keeps G f (Storable G K f) "utility" "date-time-mode"
          (λ v s. record s { date_time_mode_enabled = v }) l1 (λ v. h1) h1 in
      let l3 : Loaded =
        load_boolean G f "utility" "emoji-mode" (λ v s. record s { emoji_mode_enabled = v }) l2 in
      let h3 : Storable G K f l3.settings =
        boolean-keeps G f (Storable G K f) "utility" "emoji-mode"
          (λ v s. record s { emoji_mode_enabled = v }) l2 (λ v. h2) h2 in
      let l4 : Loaded =
        load_boolean G f "utility" "kaomoji-mode" (λ v s. record s { kaomoji_mode_enabled = v })
          l3 in
      let h4 : Storable G K f l4.settings =
        boolean-keeps G f (Storable G K f) "utility" "kaomoji-mode"
          (λ v s. record s { kaomoji_mode_enabled = v }) l3 (λ v. h3) h3 in
      let l5 : Loaded =
        load_boolean G f "utility" "clipboard-history"
          (λ v s. record s { clipboard_history_enabled = v }) l4 in
      let h5 : Storable G K f l5.settings =
        boolean-keeps G f (Storable G K f) "utility" "clipboard-history"
          (λ v s. record s { clipboard_history_enabled = v }) l4 (λ v. h4) h4 in
      let l6 : Loaded =
        load_boolean G f "utility" "floating-toolbar"
          (λ v s. record s { floating_toolbar_enabled = v }) l5 in
      let h6 : Storable G K f l6.settings =
        boolean-keeps G f (Storable G K f) "utility" "floating-toolbar"
          (λ v s. record s { floating_toolbar_enabled = v }) l5 (λ v. h5) h5 in
      h6

  pub load_shortcuts-Storable :
      (l : Loaded) → Storable G K f l.settings → Storable G K f (load_shortcuts G K f l).settings
  unfolding load_shortcuts Storable silenced valid_input_settings valid_online_settings
      valid_voice_settings input_conditions online_conditions voice_conditions
  load_shortcuts-Storable l0 h0 =
      let l1 : Loaded =
        load_boolean G f "input" "show-quanpin-helpcode"
          (λ v s. record s { show_quanpin_helpcode_in_candidates = v }) l0 in
      let h1 : Storable G K f l1.settings =
        boolean-keeps G f (Storable G K f) "input" "show-quanpin-helpcode"
          (λ v s. record s { show_quanpin_helpcode_in_candidates = v }) l0 (λ v. h0) h0 in
      let l2 : Loaded =
        load_boolean G f "input" "show-shuangpin-helpcode"
          (λ v s. record s { show_shuangpin_helpcode_in_candidates = v }) l1 in
      let h2 : Storable G K f l2.settings =
        boolean-keeps G f (Storable G K f) "input" "show-shuangpin-helpcode"
          (λ v s. record s { show_shuangpin_helpcode_in_candidates = v }) l1 (λ v. h1) h1 in
      let l3 : Loaded =
        load_boolean G f "keybindings" "switch-language-shift"
          (λ v s. record s { switch_language_shift = v }) l2 in
      let h3 : Storable G K f l3.settings =
        boolean-keeps G f (Storable G K f) "keybindings" "switch-language-shift"
          (λ v s. record s { switch_language_shift = v }) l2 (λ v. h2) h2 in
      let l4 : Loaded =
        load_boolean G f "keybindings" "switch-language-ctrl"
          (λ v s. record s { switch_language_ctrl = v }) l3 in
      let h4 : Storable G K f l4.settings =
        boolean-keeps G f (Storable G K f) "keybindings" "switch-language-ctrl"
          (λ v s. record s { switch_language_ctrl = v }) l3 (λ v. h3) h3 in
      let l5 : Loaded =
        load_boolean G f "keybindings" "switch-language-ctrl-alt-space"
          (λ v s. record s { switch_language_ctrl_alt_space = v }) l4 in
      let h5 : Storable G K f l5.settings =
        boolean-keeps G f (Storable G K f) "keybindings" "switch-language-ctrl-alt-space"
          (λ v s. record s { switch_language_ctrl_alt_space = v }) l4 (λ v. h4) h4 in
      h5

  pub load_voice-Storable :
      (l : Loaded) → Storable G K f l.settings → Storable G K f (load_voice G K f l).settings
  unfolding load_voice Storable silenced valid_input_settings valid_online_settings
      valid_voice_settings input_conditions online_conditions voice_conditions
  load_voice-Storable l0 h0 =
      let l1 : Loaded =
        load_boolean G f "voice" "enabled"
          (λ v s. record s { voice = record s.voice { enabled = v } }) l0 in
      let h1 : Storable G K f l1.settings =
        boolean-keeps G f (Storable G K f) "voice" "enabled"
          (λ v s. record s { voice = record s.voice { enabled = v } }) l0 (λ v. h0) h0 in
      let l2 : Loaded =
        load_string G f (nonempty_text K 64 false) "voice" "provider"
          (λ v s. record s { voice = record s.voice { provider = v } }) l1 in
      let h2 : Storable G K f l2.settings =
        string-keeps G f (Storable G K f) (nonempty_text K 64 false) "voice" "provider"
          (λ v s. record s { voice = record s.voice { provider = v } }) l1
          (λ v r.
            all_of-set (input_conditions K (silenced l1.settings)) 7 _
              (all_of-set
                (set (voice_conditions K (silenced l1.settings).voice) 0
                  (valid_utf8_text K 64 false v))
                1 _ (nonempty_text_nonempty K 64 false v r)
                (all_of-set (voice_conditions K (silenced l1.settings).voice) 0 _
                  (nonempty_text-valid K 64 false v r)
                  (part-all_of (input_conditions K (silenced l1.settings)) 7 h1)))
              h1)
          h1 in
      let l3 : Loaded =
        load_string G f (valid_https_endpoint K) "voice" "endpoint"
          (λ v s. record s { voice = record s.voice { endpoint = v } }) l2 in
      let h3 : Storable G K f l3.settings =
        string-keeps G f (Storable G K f) (valid_https_endpoint K) "voice" "endpoint"
          (λ v s. record s { voice = record s.voice { endpoint = v } }) l2
          (λ v r.
            all_of-set (input_conditions K (silenced l2.settings)) 7 _
              (all_of-set (voice_conditions K (silenced l2.settings).voice) 2 _ r
                (part-all_of (input_conditions K (silenced l2.settings)) 7 h2))
              h2)
          h2 in
      let l4 : Loaded =
        load_string G f (nonempty_text K 256 false) "voice" "model"
          (λ v s. record s { voice = record s.voice { model = v } }) l3 in
      let h4 : Storable G K f l4.settings =
        string-keeps G f (Storable G K f) (nonempty_text K 256 false) "voice" "model"
          (λ v s. record s { voice = record s.voice { model = v } }) l3
          (λ v r.
            all_of-set (input_conditions K (silenced l3.settings)) 7 _
              (all_of-set
                (set (voice_conditions K (silenced l3.settings).voice) 3
                  (valid_utf8_text K 256 false v))
                4 _ (nonempty_text_nonempty K 256 false v r)
                (all_of-set (voice_conditions K (silenced l3.settings).voice) 3 _
                  (nonempty_text-valid K 256 false v r)
                  (part-all_of (input_conditions K (silenced l3.settings)) 7 h3)))
              h3)
          h3 in
      let l5 : Loaded =
        load_string G f (nonempty_text K 32 false) "voice" "language"
          (λ v s. record s { voice = record s.voice { language = v } }) l4 in
      let h5 : Storable G K f l5.settings =
        string-keeps G f (Storable G K f) (nonempty_text K 32 false) "voice" "language"
          (λ v s. record s { voice = record s.voice { language = v } }) l4
          (λ v r.
            all_of-set (input_conditions K (silenced l4.settings)) 7 _
              (all_of-set
                (set (voice_conditions K (silenced l4.settings).voice) 5
                  (valid_utf8_text K 32 false v))
                6 _ (nonempty_text_nonempty K 32 false v r)
                (all_of-set (voice_conditions K (silenced l4.settings).voice) 5 _
                  (nonempty_text-valid K 32 false v r)
                  (part-all_of (input_conditions K (silenced l4.settings)) 7 h4)))
              h4)
          h4 in
      let l6 : Loaded =
        load_boolean G f "voice" "polish-enabled"
          (λ v s. record s { voice = record s.voice { polish_enabled = v } }) l5 in
      let h6 : Storable G K f l6.settings =
        boolean-keeps G f (Storable G K f) "voice" "polish-enabled"
          (λ v s. record s { voice = record s.voice { polish_enabled = v } }) l5 (λ v. h5) h5 in
      let l7 : Loaded =
        load_string G f (valid_https_endpoint K) "voice" "polish-endpoint"
          (λ v s. record s { voice = record s.voice { polish_endpoint = v } }) l6 in
      let h7 : Storable G K f l7.settings =
        string-keeps G f (Storable G K f) (valid_https_endpoint K) "voice" "polish-endpoint"
          (λ v s. record s { voice = record s.voice { polish_endpoint = v } }) l6
          (λ v r.
            all_of-set (input_conditions K (silenced l6.settings)) 7 _
              (all_of-set (voice_conditions K (silenced l6.settings).voice) 8 _ r
                (part-all_of (input_conditions K (silenced l6.settings)) 7 h6))
              h6)
          h6 in
      let l8 : Loaded =
        load_string G f (nonempty_text K 256 false) "voice" "polish-model"
          (λ v s. record s { voice = record s.voice { polish_model = v } }) l7 in
      let h8 : Storable G K f l8.settings =
        string-keeps G f (Storable G K f) (nonempty_text K 256 false) "voice" "polish-model"
          (λ v s. record s { voice = record s.voice { polish_model = v } }) l7
          (λ v r.
            all_of-set (input_conditions K (silenced l7.settings)) 7 _
              (all_of-set
                (set (voice_conditions K (silenced l7.settings).voice) 9
                  (valid_utf8_text K 256 false v))
                10 _ (nonempty_text_nonempty K 256 false v r)
                (all_of-set (voice_conditions K (silenced l7.settings).voice) 9 _
                  (nonempty_text-valid K 256 false v r)
                  (part-all_of (input_conditions K (silenced l7.settings)) 7 h7)))
              h7)
          h7 in
      let l9 : Loaded =
        load_string G f (nonempty_text K 8192 true) "voice" "polish-prompt"
          (λ v s. record s { voice = record s.voice { polish_prompt = v } }) l8 in
      let h9 : Storable G K f l9.settings =
        string-keeps G f (Storable G K f) (nonempty_text K 8192 true) "voice" "polish-prompt"
          (λ v s. record s { voice = record s.voice { polish_prompt = v } }) l8
          (λ v r.
            all_of-set (input_conditions K (silenced l8.settings)) 7 _
              (all_of-set
                (set (voice_conditions K (silenced l8.settings).voice) 11
                  (valid_utf8_text K 8192 true v))
                12 _ (nonempty_text_nonempty K 8192 true v r)
                (all_of-set (voice_conditions K (silenced l8.settings).voice) 11 _
                  (nonempty_text-valid K 8192 true v r)
                  (part-all_of (input_conditions K (silenced l8.settings)) 7 h8)))
              h8)
          h8 in
      h9
