-- ===== src/Settings/Storable/Online.antt =====
-- Reading these groups of keys keeps settings storable (src/SettingsStore.cpp).
use msime_linux.Base.{true, false, part-all_of, all_of-set}
use msime_linux.Settings.KeyFile.{KeyFile}
use msime_linux.Settings.Valid.{
  Checks, valid_utf8_text, valid_https_endpoint, valid_translation_language, valid_online_settings,
  valid_voice_settings, valid_input_settings, online_conditions, voice_conditions, input_conditions,
}
use msime_linux.Settings.Names.{parse_ai_provider, parse_translation_provider}
use msime_linux.Settings.Load.{
  Loaded, load_boolean, load_integer, load_string, load_choice, load_ai, load_translation,
}
use msime_linux.Settings.Keeps.{
  silenced, Storable, boolean-keeps, choice-keeps, integer-keeps, string-keeps,
}

module _ {F : Type 0} (G : KeyFile F) (K : Checks) (f : F) where
  pub load_ai-Storable :
      (l : Loaded) → Storable G K f l.settings → Storable G K f (load_ai G K f l).settings
  unfolding load_ai Storable silenced valid_input_settings valid_online_settings
      valid_voice_settings input_conditions online_conditions voice_conditions
  load_ai-Storable l0 h0 =
      let l1 : Loaded =
        load_boolean G f "ai" "enabled"
          (λ v s. record s { online = record s.online { ai = record s.online.ai { enabled = v } } })
          l0 in
      let h1 : Storable G K f l1.settings =
        boolean-keeps G f (Storable G K f) "ai" "enabled"
          (λ v s. record s { online = record s.online { ai = record s.online.ai { enabled = v } } })
          l0 (λ v. h0) h0 in
      let l2 : Loaded =
        load_choice G f parse_ai_provider "ai" "provider"
          (λ v s. record s {
            online = record s.online { ai = record s.online.ai { provider = v } };
          })
          l1 in
      let h2 : Storable G K f l2.settings =
        choice-keeps G f (Storable G K f) parse_ai_provider "ai" "provider"
          (λ v s. record s {
            online = record s.online { ai = record s.online.ai { provider = v } };
          })
          l1 (λ v. h1) h1 in
      let l3 : Loaded =
        load_string G f (valid_https_endpoint K) "ai" "endpoint"
          (λ v s. record s {
            online = record s.online { ai = record s.online.ai { endpoint = v } };
          })
          l2 in
      let h3 : Storable G K f l3.settings =
        string-keeps G f (Storable G K f) (valid_https_endpoint K) "ai" "endpoint"
          (λ v s. record s {
            online = record s.online { ai = record s.online.ai { endpoint = v } };
          })
          l2
          (λ v r.
            all_of-set (input_conditions K (silenced l2.settings)) 6 _
              (all_of-set (online_conditions K l2.settings.online) 0 _ r
                (part-all_of (input_conditions K (silenced l2.settings)) 6 h2))
              h2)
          h2 in
      let l4 : Loaded =
        load_string G f (valid_utf8_text K 256 false) "ai" "model"
          (λ v s. record s { online = record s.online { ai = record s.online.ai { model = v } } })
          l3 in
      let h4 : Storable G K f l4.settings =
        string-keeps G f (Storable G K f) (valid_utf8_text K 256 false) "ai" "model"
          (λ v s. record s { online = record s.online { ai = record s.online.ai { model = v } } })
          l3
          (λ v r.
            all_of-set (input_conditions K (silenced l3.settings)) 6 _
              (all_of-set (online_conditions K l3.settings.online) 1 _ r
                (part-all_of (input_conditions K (silenced l3.settings)) 6 h3))
              h3)
          h3 in
      let l5 : Loaded =
        load_string G f (valid_utf8_text K 8192 true) "ai" "prompt"
          (λ v s. record s { online = record s.online { ai = record s.online.ai { prompt = v } } })
          l4 in
      let h5 : Storable G K f l5.settings =
        string-keeps G f (Storable G K f) (valid_utf8_text K 8192 true) "ai" "prompt"
          (λ v s. record s { online = record s.online { ai = record s.online.ai { prompt = v } } })
          l4
          (λ v r.
            all_of-set (input_conditions K (silenced l4.settings)) 6 _
              (all_of-set (online_conditions K l4.settings.online) 2 _ r
                (part-all_of (input_conditions K (silenced l4.settings)) 6 h4))
              h4)
          h4 in
      let l6 : Loaded =
        load_integer G f 1 10 "ai" "candidate-limit"
          (λ v s. record s {
            online = record s.online { ai = record s.online.ai { candidate_limit = v } };
          })
          l5 in
      let h6 : Storable G K f l6.settings =
        integer-keeps G f (Storable G K f) 1 10 "ai" "candidate-limit"
          (λ v s. record s {
            online = record s.online { ai = record s.online.ai { candidate_limit = v } };
          })
          l5
          (λ v r.
            all_of-set (input_conditions K (silenced l5.settings)) 6 _
              (all_of-set (online_conditions K l5.settings.online) 3 _ r
                (part-all_of (input_conditions K (silenced l5.settings)) 6 h5))
              h5)
          h5 in
      h6

  pub load_translation-Storable :
      (l : Loaded) → Storable G K f l.settings → Storable G K f (load_translation G K f l).settings
  unfolding load_translation Storable silenced valid_input_settings valid_online_settings
      valid_voice_settings input_conditions online_conditions voice_conditions
  load_translation-Storable l0 h0 =
      let l1 : Loaded =
        load_boolean G f "translation" "enabled"
          (λ v s. record s { online = record s.online { candidate_translations_enabled = v } })
          l0 in
      let h1 : Storable G K f l1.settings =
        boolean-keeps G f (Storable G K f) "translation" "enabled"
          (λ v s. record s { online = record s.online { candidate_translations_enabled = v } }) l0
          (λ v. h0) h0 in
      let l2 : Loaded =
        load_choice G f parse_translation_provider "translation" "provider"
          (λ v s. record s { online = record s.online { translation_provider = v } }) l1 in
      let h2 : Storable G K f l2.settings =
        choice-keeps G f (Storable G K f) parse_translation_provider "translation" "provider"
          (λ v s. record s { online = record s.online { translation_provider = v } }) l1 (λ v. h1)
          h1 in
      let l3 : Loaded =
        load_string G f (valid_translation_language) "translation" "target-language"
          (λ v s. record s { online = record s.online { translation_target_language = v } }) l2 in
      let h3 : Storable G K f l3.settings =
        string-keeps G f (Storable G K f) (valid_translation_language) "translation"
          "target-language"
          (λ v s. record s { online = record s.online { translation_target_language = v } }) l2
          (λ v r.
            all_of-set (input_conditions K (silenced l2.settings)) 6 _
              (all_of-set (online_conditions K l2.settings.online) 4 _ r
                (part-all_of (input_conditions K (silenced l2.settings)) 6 h2))
              h2)
          h2 in
      let l4 : Loaded =
        load_string G f (valid_https_endpoint K) "translation" "endpoint"
          (λ v s. record s { online = record s.online { translation_endpoint = v } }) l3 in
      let h4 : Storable G K f l4.settings =
        string-keeps G f (Storable G K f) (valid_https_endpoint K) "translation" "endpoint"
          (λ v s. record s { online = record s.online { translation_endpoint = v } }) l3
          (λ v r.
            all_of-set (input_conditions K (silenced l3.settings)) 6 _
              (all_of-set (online_conditions K l3.settings.online) 5 _ r
                (part-all_of (input_conditions K (silenced l3.settings)) 6 h3))
              h3)
          h3 in
      h4
