-- ===== src/Settings/EditRows.antt =====
-- The rows that are switches, choices and numbers keep settings valid (src/SettingsUiModel.cpp).
use msime_linux.Base.{
  ℕ, Bool, true, false, not, Option, none, some, [], Bytes, bytes_eq, is_empty, if◌then◌else◌, ◌≡◌,
  refl, ap, ◌∙◌, all_of, set, part-all_of, all_of-set,
}
use Prim.Native.String.{String}
use text.Mathlib.Text.{◌==◌}
use msime_linux.Online.Endpoint.{token_allowed}
use msime_linux.Settings.Types.{InputSettings, AiProvider, TranslationProvider}
use msime_linux.Settings.Valid.{
  Checks, within, is_member, languages, valid_utf8_text, valid_translation_language,
  valid_online_settings, valid_voice_settings, valid_input_settings, online_conditions,
  voice_conditions, input_conditions,
}
use msime_linux.Settings.Names.{ai_provider_name}
use msime_linux.Settings.Stored.{ChecksLaws}
use msime_linux.Settings.Edit.{
  Edit, rejected, accept_if, helpcode_schemas, voice_providers, booleans, set_boolean, modes_edits,
  edit_modes, numbers_edits, edit_numbers, providers_edits, edit_providers, set_ai_provider,
  set_voice_provider, same_backend, set_translation_provider, after, Refusal,
}
use msime_linux.Settings.EditLemmas.{
  each_none, each_one, select-has, parse_integer-within, one_of-is_member, first_of, second_of,
  voice_provider_name,
}

module _ (K : Checks) (laws : ChecksLaws K)
    (schemas : (v : Bytes)
      → is_member v helpcode_schemas ≡ true
      → K.is_supported_helpcode_schema v ≡ true)
    (s : InputSettings) (valid : valid_input_settings K s ≡ true) where
  unfoldable pub Valid : InputSettings → Type 0
  Valid s' = valid_input_settings K s' ≡ true

  unfoldable pub Keeps : Edit → Type 0
  Keeps e = Valid (after e s)

  same : (s' : InputSettings) → input_conditions K s' ≡ input_conditions K s → Valid s'
  unfolding Valid valid_input_settings
  same s' e = ap all_of e ∙ valid

  replace_top :
      (s' : InputSettings) (i : ℕ) (b : Bool)
      → b ≡ true
      → input_conditions K s' ≡ set (input_conditions K s) i b
      → Valid s'
  unfolding Valid valid_input_settings
  replace_top s' i b h e = ap all_of e ∙ all_of-set (input_conditions K s) i b h valid

  pub replace_online :
      (s' : InputSettings) (i : ℕ) (b : Bool)
      → b ≡ true
      → input_conditions K s'
        ≡ set (input_conditions K s) 6 (all_of (set (online_conditions K s.online) i b))
      → Valid s'
  unfolding valid_input_settings input_conditions valid_online_settings
  replace_online s' i b h e =
      replace_top s' 6 _
        (all_of-set (online_conditions K s.online) i b h
          (part-all_of (input_conditions K s) 6 valid))
        e

  pub replace_voice :
      (s' : InputSettings) (i j : ℕ) (b c : Bool)
      → b ≡ true
      → c ≡ true
      → input_conditions K s'
        ≡ set (input_conditions K s) 7 (all_of (set (set (voice_conditions K s.voice) i b) j c))
      → Valid s'
  unfolding valid_input_settings input_conditions valid_voice_settings
  replace_voice s' i j b c h k e =
      replace_top s' 7 _
        (all_of-set (set (voice_conditions K s.voice) i b) j c k (
          all_of-set (voice_conditions K s.voice) i b h
            (part-all_of (input_conditions K s) 7 valid)))
        e

  pub rejected_keeps : (r : Refusal) → Keeps (rejected r)
  unfolding Keeps after Valid
  rejected_keeps r = valid

  pub accept :
      {A : Type 0}
      → (o : Option A) (set_it : A → InputSettings) → ((a : A) → o ≡ some a → Valid (set_it a))
      → Keeps (accept_if o set_it)
  unfolding Keeps accept_if Valid after
  accept none set_it h = valid
  accept (some a) set_it h = h a refl

  pub set_boolean-Valid :
      (id : String) (b : Bool)
      → (id == "voice-enabled") ≡ false
      → (id == "voice-polish-enabled") ≡ false
      → Valid (set_boolean id b s)
  unfolding set_boolean booleans input_conditions online_conditions voice_conditions
      valid_online_settings valid_voice_settings
  set_boolean-Valid id b voice polish =
      select-has Valid (booleans b s) id s
        (each_one (λ h. same _ refl)
          (each_one (λ h. same _ refl)
            (each_one (λ h. same _ refl)
              (each_one (λ h. same _ refl)
                (each_one (λ h. same _ refl)
                  (each_one (λ h. same _ refl)
                    (each_one (λ h. same _ refl)
                      (each_one (λ h. same _ refl)
                        (each_one (λ h. same _ refl)
                          (each_one (λ h. same _ refl)
                            (each_one (λ h. same _ refl)
                              (each_one (λ h. same _ refl)
                                (each_one (λ h. same _ refl)
                                  (each_one (λ h. same _ refl)
                                    (each_one (λ h. same _ refl)
                                      (each_one (λ h. same _ refl)
                                        (each_one (λ h. same _ refl)
                                          (each_one (λ h. same _ refl)
                                            (each_one (λ h. same _ refl)
                                              (each_one (λ h. same _ refl)
                                                (each_one (λ h. same _ refl)
                                                  (each_one (λ h. same _ refl)
                                                    (each_one (λ h. same _ refl)
                                                      (each_one (λ h. same _ refl)
                                                        (each_one (λ h. same _ refl)
                                                          (each_one (λ h. same _ refl)
                                                            (each_one (λ h. absurd (cc (h, voice)))
                                                            (each_one (λ h. absurd (cc (h, polish)))
                                                            (each_one (λ h. same _ refl)
                                                            (each_one (λ h. same _ refl)
                                                            (each_one (λ h. same _ refl)
                                                            each_none)))))))))))))))))))))))))))))))
        (same s refl)

  token_kept :
      (b : Bool) (t : Bytes) → token_allowed t ≡ true → token_allowed (if b then t else []) ≡ true
  unfolding token_allowed
  token_kept true t h = h
  token_kept false t h = refl

  pub token_dropped :
      (b : Bool) (t : Bytes) → token_allowed t ≡ true → token_allowed (if b then [] else t) ≡ true
  unfolding token_allowed
  token_dropped true t h = refl
  token_dropped false t h = h

  pub ai_token_allowed : token_allowed s.online.ai.token ≡ true
  unfolding valid_input_settings input_conditions online_conditions valid_online_settings
  ai_token_allowed =
      part-all_of (online_conditions K s.online) 8 (part-all_of (input_conditions K s) 6 valid)

  pub translation_token_allowed : token_allowed s.online.translation_token ≡ true
  unfolding valid_input_settings input_conditions online_conditions valid_online_settings
  translation_token_allowed =
      part-all_of (online_conditions K s.online) 9 (part-all_of (input_conditions K s) 6 valid)

  pub voice_token_allowed : token_allowed s.voice.token ≡ true
  unfolding valid_input_settings input_conditions voice_conditions valid_voice_settings
  voice_token_allowed =
      part-all_of (voice_conditions K s.voice) 14 (part-all_of (input_conditions K s) 7 valid)

  ai_provider_kept : (p : AiProvider) → Valid (set_ai_provider p s)
  unfolding set_ai_provider input_conditions online_conditions voice_conditions
      valid_online_settings valid_voice_settings
  ai_provider_kept p =
      replace_online _ 8 _
        (token_kept (bytes_eq (ai_provider_name p) (ai_provider_name s.online.ai.provider))
          s.online.ai.token ai_token_allowed)
        refl

  translation_provider_kept : (p : TranslationProvider) → Valid (set_translation_provider p s)
  unfolding set_translation_provider input_conditions online_conditions voice_conditions
      valid_online_settings valid_voice_settings
  translation_provider_kept p =
      replace_online _ 9 _
        (token_kept (same_backend p s.online.translation_provider) s.online.translation_token
          translation_token_allowed)
        refl

  voice_provider_kept :
      (p : Bytes) → is_member p voice_providers ≡ true → Valid (set_voice_provider p s)
  unfolding set_voice_provider valid_input_settings input_conditions online_conditions
      voice_conditions valid_online_settings valid_voice_settings
  voice_provider_kept p m =
      let both = voice_provider_name K p laws m in
      replace_top _ 7 _
        (all_of-set
          (set (set (voice_conditions K s.voice) 0 (valid_utf8_text K 64 false p)) 1
            (not (is_empty p)))
          14 _ (token_kept (bytes_eq p s.voice.provider) s.voice.token voice_token_allowed)
          (all_of-set (set (voice_conditions K s.voice) 0 (valid_utf8_text K 64 false p)) 1 _
            (second_of _ _ both)
            (all_of-set (voice_conditions K s.voice) 0 _ (first_of _ _ both)
              (part-all_of (input_conditions K s) 7 valid))))
        refl

  pub edit_modes-Keeps :
      (id : String) (v : Bytes) (otherwise : Edit)
      → Keeps otherwise
      → Keeps (edit_modes id v s otherwise)
  unfolding edit_modes modes_edits input_conditions online_conditions voice_conditions
      valid_online_settings valid_voice_settings valid_translation_language
  edit_modes-Keeps id v otherwise rest =
      select-has Keeps (modes_edits v s) id otherwise
        (each_one (λ h. accept _ _ (λ a e. same _ refl))
          (each_one (λ h. accept _ _ (λ a e. same _ refl))
            (each_one (λ h. accept _ _ (λ a e. same _ refl))
              (each_one
                (λ h.
                  accept _ _
                    (λ n e. replace_top _ 0 (within 3 9 n) (parse_integer-within 3 9 n v e) refl))
                (each_one (λ h. accept _ _ (λ a e. same _ refl))
                  (each_one (λ h. accept _ _ (λ a e. same _ refl))
                    (each_one (λ h. accept _ _ (λ a e. same _ refl))
                      (each_one (λ h. accept _ _ (λ a e. same _ refl))
                        (each_one (λ h. accept _ _ (λ a e. same _ refl)) each_none)))))))))
        rest

  pub edit_numbers-Keeps :
      (id : String) (v : Bytes) (otherwise : Edit)
      → Keeps otherwise
      → Keeps (edit_numbers id v s otherwise)
  unfolding edit_numbers numbers_edits input_conditions online_conditions voice_conditions
      valid_online_settings valid_voice_settings valid_translation_language
  edit_numbers-Keeps id v otherwise rest =
      select-has Keeps (numbers_edits v s) id otherwise
        (each_one
          (λ h. accept _ _ (λ a e.
            replace_top _ 1 (K.is_supported_helpcode_schema a)
              (schemas a (one_of-is_member helpcode_schemas v a e)) refl))
          (each_one
            (λ h. accept _ _ (λ a e.
              replace_top _ 2 (K.is_supported_helpcode_schema a)
                (schemas a (one_of-is_member helpcode_schemas v a e)) refl))
            (each_one (λ h. accept _ _ (λ a e. same _ refl))
              (each_one
                (λ h.
                  accept _ _
                    (λ n e. replace_top _ 3 (within 1 10 n) (parse_integer-within 1 10 n v e) refl))
                (each_one
                  (λ h.
                    accept _ _ (λ n e.
                      replace_top _ 4 (within 1 10 n) (parse_integer-within 1 10 n v e) refl))
                  (each_one
                    (λ h.
                      accept _ _ (λ n e.
                        replace_top _ 5 (within 1 8 n) (parse_integer-within 1 8 n v e) refl))
                    (each_one
                      (λ h. accept _ _ (λ n e.
                        replace_online _ 6 (within 100 10000 n)
                          (parse_integer-within 100 10000 n v e) refl))
                      (each_one
                        (λ h. accept _ _ (λ n e.
                          replace_online _ 7 (within 500 30000 n)
                            (parse_integer-within 500 30000 n v e) refl))
                        each_none))))))))
        rest

  pub edit_providers-Keeps :
      (id : String) (v : Bytes) (otherwise : Edit)
      → Keeps otherwise
      → Keeps (edit_providers id v s otherwise)
  unfolding edit_providers providers_edits input_conditions online_conditions voice_conditions
      valid_online_settings valid_voice_settings valid_translation_language
  edit_providers-Keeps id v otherwise rest =
      select-has Keeps (providers_edits v s) id otherwise
        (each_one (λ h. accept _ _ (λ a e. ai_provider_kept a))
          (each_one
            (λ h.
              accept _ _ (λ a e. voice_provider_kept a (one_of-is_member voice_providers v a e)))
            (each_one
              (λ h.
                accept _ _ (λ n e.
                  replace_online _ 3 (within 1 10 n) (parse_integer-within 1 10 n v e) refl))
              (each_one (λ h. accept _ _ (λ a e. translation_provider_kept a))
                (each_one
                  (λ h. accept _ _ (λ a e.
                    replace_online _ 4 (valid_translation_language a)
                      (one_of-is_member languages v a e) refl))
                  each_none)))))
        rest
