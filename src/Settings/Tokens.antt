-- ===== src/Settings/Tokens.antt =====
-- A token in memory belongs to the provider that is selected (src/SettingsUiModel.cpp).
use msime_linux.Base.{
  Bool, not, ◌&&◌, Option, none, some, [], Bytes, bytes_eq, bytes_eq_iff, is_empty, if◌then◌else◌,
  ◌≡◌, ◌⊎◌, refl, sym, ap, ◌∙◌, ◌||◌, if_intro, Bool-cases, inl, inr,
}
use Prim.Native.String.{String}
use msime_linux.Online.Endpoint.{token_allowed}
use msime_linux.Settings.Types.{InputSettings, AiProvider, TranslationProvider}
use msime_linux.Settings.Valid.{Checks}
use msime_linux.Settings.Names.{
  ai_provider_name, parse_ai_provider, parse_ai_provider-ai_provider_name,
}
use msime_linux.Settings.Parse.{parse_bool}
use msime_linux.Settings.EditLemmas.{each_none, each_one, select-has}
use msime_linux.Settings.Edit.{
  Edit, accepted, rejected, accept_if, booleans, set_boolean, modes_edits, edit_modes,
  numbers_edits, edit_numbers, providers_edits, edit_providers, set_ai_provider, set_voice_provider,
  set_translation_provider, after, invalid_value, empty_while_enabled, empty_value, text_accepted,
  is_required, is_required_while_enabled, set_text, texts, edit_text, is_text, Refusal,
  credential_characters, clearings, clear_translation, set_cleared, credentials, enter_translation,
  set_credential, edit_credential, is_cleared_row, is_credential_row, is_boolean, edit_online, edit,
}

module _ (K : Checks) (s : InputSettings) where
  -- The AI provider is the one of `s`, or no token is held.
  unfoldable Kept : InputSettings → Type 0
  Kept s' = (s'.online.ai.provider ≡ s.online.ai.provider) ⊎ (s'.online.ai.token ≡ [])

  unfoldable KeepsToken : Edit → Type 0
  KeepsToken e = Kept (after e s)

  unchanged : (s' : InputSettings) → s'.online.ai.provider ≡ s.online.ai.provider → Kept s'
  unfolding Kept
  unchanged s' h = inl h

  refused : (r : Refusal) → KeepsToken (rejected r)
  unfolding KeepsToken after Kept
  refused r = inl refl

  taken :
      {A : Type 0}
      → (o : Option A) (set_it : A → InputSettings) → ((a : A) → Kept (set_it a))
      → KeepsToken (accept_if o set_it)
  unfolding KeepsToken accept_if after Kept
  taken none set_it h = inl refl
  taken (some a) set_it h = h a

  set_boolean-Kept : (id : String) (b : Bool) → Kept (set_boolean id b s)
  unfolding set_boolean booleans
  set_boolean-Kept id b =
      select-has Kept (booleans b s) id s
        (each_one (λ h. unchanged _ refl)
          (each_one (λ h. unchanged _ refl)
            (each_one (λ h. unchanged _ refl)
              (each_one (λ h. unchanged _ refl)
                (each_one (λ h. unchanged _ refl)
                  (each_one (λ h. unchanged _ refl)
                    (each_one (λ h. unchanged _ refl)
                      (each_one (λ h. unchanged _ refl)
                        (each_one (λ h. unchanged _ refl)
                          (each_one (λ h. unchanged _ refl)
                            (each_one (λ h. unchanged _ refl)
                              (each_one (λ h. unchanged _ refl)
                                (each_one (λ h. unchanged _ refl)
                                  (each_one (λ h. unchanged _ refl)
                                    (each_one (λ h. unchanged _ refl)
                                      (each_one (λ h. unchanged _ refl)
                                        (each_one (λ h. unchanged _ refl)
                                          (each_one (λ h. unchanged _ refl)
                                            (each_one (λ h. unchanged _ refl)
                                              (each_one (λ h. unchanged _ refl)
                                                (each_one (λ h. unchanged _ refl)
                                                  (each_one (λ h. unchanged _ refl)
                                                    (each_one (λ h. unchanged _ refl)
                                                      (each_one (λ h. unchanged _ refl)
                                                        (each_one (λ h. unchanged _ refl)
                                                          (each_one (λ h. unchanged _ refl)
                                                            (each_one (λ h. unchanged _ refl)
                                                            (each_one (λ h. unchanged _ refl)
                                                            (each_one (λ h. unchanged _ refl)
                                                            (each_one (λ h. unchanged _ refl)
                                                            (each_one (λ h. unchanged _ refl)
                                                            each_none)))))))))))))))))))))))))))))))
        (unchanged s refl)

  set_cleared-Kept : (id : String) (b : Bool) → Kept (set_cleared id b s)
  unfolding set_cleared clearings
  set_cleared-Kept id b =
      select-has Kept (clearings b s) id (clear_translation b s)
        (each_one (λ h. unchanged _ refl) (each_one (λ h. unchanged _ refl) each_none))
        (unchanged _ refl)

  set_credential-Kept : (id : String) (v : Bytes) → Kept (set_credential id v s)
  unfolding set_credential credentials
  set_credential-Kept id v =
      select-has Kept (credentials v s) id (enter_translation v s)
        (each_one (λ h. unchanged _ refl) (each_one (λ h. unchanged _ refl) each_none))
        (unchanged _ refl)

  set_text-Kept : (id : String) (v : Bytes) → Kept (set_text id v s)
  unfolding set_text texts
  set_text-Kept id v =
      select-has Kept (texts v s) id (record s { voice = record s.voice { polish_prompt = v } })
        (each_one (λ h. unchanged _ refl)
          (each_one (λ h. unchanged _ refl)
            (each_one (λ h. unchanged _ refl)
              (each_one (λ h. unchanged _ refl)
                (each_one (λ h. unchanged _ refl)
                  (each_one (λ h. unchanged _ refl)
                    (each_one (λ h. unchanged _ refl)
                      (each_one (λ h. unchanged _ refl)
                        (each_one (λ h. unchanged _ refl) each_none)))))))))
        (unchanged _ refl)

  same_name : (a b : AiProvider) → ai_provider_name a ≡ ai_provider_name b → a ≡ b
  same_name a b h = some_injective (
      sym (parse_ai_provider-ai_provider_name a)
      ∙ ap parse_ai_provider h
      ∙ parse_ai_provider-ai_provider_name b)
    where
      some_injective : some a ≡ some b → a ≡ b
      some_injective h = cc h

  set_ai_provider-Kept : (p : AiProvider) → Kept (set_ai_provider p s)
  unfolding set_ai_provider Kept
  set_ai_provider-Kept p =
      elim (Bool-cases (bytes_eq (ai_provider_name p) (ai_provider_name s.online.ai.provider))) [
        | inl yes' ↦ inl (same_name p s.online.ai.provider ((bytes_eq_iff _ _).0 yes'))
        | inr no' ↦ inr (ap (λ b. if b then s.online.ai.token else []) no')
      ]

  set_voice_provider-Kept : (p : Bytes) → Kept (set_voice_provider p s)
  unfolding set_voice_provider
  set_voice_provider-Kept p = unchanged _ refl

  set_translation_provider-Kept : (p : TranslationProvider) → Kept (set_translation_provider p s)
  unfolding set_translation_provider
  set_translation_provider-Kept p = unchanged _ refl

  edit_modes-KeepsToken :
      (id : String) (v : Bytes) (otherwise : Edit)
      → KeepsToken otherwise
      → KeepsToken (edit_modes id v s otherwise)
  unfolding edit_modes modes_edits
  edit_modes-KeepsToken id v otherwise rest =
      select-has KeepsToken (modes_edits v s) id otherwise
        (each_one (λ h. taken _ _ (λ a. unchanged _ refl))
          (each_one (λ h. taken _ _ (λ a. unchanged _ refl))
            (each_one (λ h. taken _ _ (λ a. unchanged _ refl))
              (each_one (λ h. taken _ _ (λ a. unchanged _ refl))
                (each_one (λ h. taken _ _ (λ a. unchanged _ refl))
                  (each_one (λ h. taken _ _ (λ a. unchanged _ refl))
                    (each_one (λ h. taken _ _ (λ a. unchanged _ refl))
                      (each_one (λ h. taken _ _ (λ a. unchanged _ refl))
                        (each_one (λ h. taken _ _ (λ a. unchanged _ refl)) each_none)))))))))
        rest

  edit_numbers-KeepsToken :
      (id : String) (v : Bytes) (otherwise : Edit)
      → KeepsToken otherwise
      → KeepsToken (edit_numbers id v s otherwise)
  unfolding edit_numbers numbers_edits
  edit_numbers-KeepsToken id v otherwise rest =
      select-has KeepsToken (numbers_edits v s) id otherwise
        (each_one (λ h. taken _ _ (λ a. unchanged _ refl))
          (each_one (λ h. taken _ _ (λ a. unchanged _ refl))
            (each_one (λ h. taken _ _ (λ a. unchanged _ refl))
              (each_one (λ h. taken _ _ (λ a. unchanged _ refl))
                (each_one (λ h. taken _ _ (λ a. unchanged _ refl))
                  (each_one (λ h. taken _ _ (λ a. unchanged _ refl))
                    (each_one (λ h. taken _ _ (λ a. unchanged _ refl))
                      (each_one (λ h. taken _ _ (λ a. unchanged _ refl)) each_none))))))))
        rest

  edit_providers-KeepsToken :
      (id : String) (v : Bytes) (otherwise : Edit)
      → KeepsToken otherwise
      → KeepsToken (edit_providers id v s otherwise)
  unfolding edit_providers providers_edits
  edit_providers-KeepsToken id v otherwise rest =
      select-has KeepsToken (providers_edits v s) id otherwise
        (each_one (λ h. taken _ _ (λ a. set_ai_provider-Kept a))
          (each_one (λ h. taken _ _ (λ a. set_voice_provider-Kept a))
            (each_one (λ h. taken _ _ (λ a. unchanged _ refl))
              (each_one (λ h. taken _ _ (λ a. set_translation_provider-Kept a))
                (each_one (λ h. taken _ _ (λ a. unchanged _ refl)) each_none)))))
        rest

  accepted_keeps : (s' : InputSettings) → Kept s' → KeepsToken (accepted s')
  unfolding KeepsToken after
  accepted_keeps s' h = h

  edit_credential-KeepsToken : (id : String) (v : Bytes) → KeepsToken (edit_credential id v s)
  unfolding edit_credential
  edit_credential-KeepsToken id v =
      if_intro KeepsToken (not (token_allowed v)) (rejected credential_characters)
        (if is_empty v then accepted s else accepted (set_credential id v s))
        (λ b. refused credential_characters)
        (λ b.
          if_intro KeepsToken (is_empty v) (accepted s) (accepted (set_credential id v s))
            (λ c. accepted_keeps s (unchanged s refl))
            (λ c. accepted_keeps _ (set_credential-Kept id v)))

  edit_text-KeepsToken : (id : String) (v : Bytes) → KeepsToken (edit_text K id v s)
  unfolding edit_text
  edit_text-KeepsToken id v =
      let missing : Edit =
        rejected (if is_required_while_enabled id s then empty_while_enabled else empty_value) in
      if_intro KeepsToken (not (text_accepted K id v)) (rejected invalid_value)
        (if is_empty v && (is_required id || is_required_while_enabled id s)
          then missing
          else accepted (set_text id v s))
        (λ b. refused invalid_value)
        (λ b.
          if_intro KeepsToken (is_empty v && (is_required id || is_required_while_enabled id s))
            missing (accepted (set_text id v s)) (λ c. refused _)
            (λ c. accepted_keeps _ (set_text-Kept id v)))

  edit_online-KeepsToken : (id : String) (v : Bytes) → KeepsToken (edit_online K id v s)
  unfolding edit_online
  edit_online-KeepsToken id v =
      if_intro KeepsToken (is_cleared_row id) (accept_if (parse_bool v) (λ b. set_cleared id b s))
        (if is_credential_row id
          then edit_credential id v s
          else if is_text id
          then edit_text K id v s
          else rejected invalid_value)
        (λ h. taken _ _ (λ b. set_cleared-Kept id b))
        (λ h.
          if_intro KeepsToken (is_credential_row id) (edit_credential id v s)
            (if is_text id then edit_text K id v s else rejected invalid_value)
            (λ c. edit_credential-KeepsToken id v)
            (λ c.
              if_intro KeepsToken (is_text id) (edit_text K id v s) (rejected invalid_value)
                (λ t. edit_text-KeepsToken id v) (λ t. refused invalid_value)))

  -- Whatever row is edited and whatever is entered, the AI provider stays the one that it was, or no
  -- AI token is held afterwards: a token never stays in memory under another provider.
  pub edit_keeps_token_with_provider :
      (id : String) (v : Bytes)
      → ((after (edit K id v s) s).online.ai.provider ≡ s.online.ai.provider)
        ⊎ ((after (edit K id v s) s).online.ai.token ≡ [])
  unfolding edit KeepsToken Kept
  edit_keeps_token_with_provider id v = edit_modes-KeepsToken id v _ (
      if_intro KeepsToken (is_boolean id) (accept_if (parse_bool v) (λ b. set_boolean id b s))
        (edit_numbers id v s (edit_providers id v s (edit_online K id v s)))
        (λ h. taken _ _ (λ b. set_boolean-Kept id b))
        (λ h.
          edit_numbers-KeepsToken id v _
            (edit_providers-KeepsToken id v _ (edit_online-KeepsToken id v))))
