-- ===== src/Settings/Hydrate.antt =====
-- Loading the settings with their credentials (src/SettingsStore.cpp).
use msime_linux.Base.{◌&&◌, ◌≡◌, refl, ◌∙◌, if_intro}
use msime_linux.Settings.Types.{InputSettings}
use msime_linux.Settings.RoundTrip.{persisted}
use msime_linux.Settings.Secrets.{
  Lookup, found, not_found, unavailable, SecretStore, Hydrated, take_ai, take_translation,
  take_voice, uses_deeplx, deeplx_entry, hydrate_ai, hydrate_translation, hydrate_voice, hydrate,
}

take_ai-persisted :
    (r : Lookup) (h : Hydrated) → persisted (take_ai r h).settings ≡ persisted h.settings
unfolding take_ai persisted
take_ai-persisted (found v) h = refl
take_ai-persisted not_found h = refl
take_ai-persisted unavailable h = refl

take_translation-persisted :
    (r : Lookup) (h : Hydrated) → persisted (take_translation r h).settings ≡ persisted h.settings
unfolding take_translation persisted
take_translation-persisted (found v) h = refl
take_translation-persisted not_found h = refl
take_translation-persisted unavailable h = refl

take_voice-persisted :
    (r : Lookup) (h : Hydrated) → persisted (take_voice r h).settings ≡ persisted h.settings
unfolding take_voice persisted
take_voice-persisted (found v) h = refl
take_voice-persisted not_found h = refl
take_voice-persisted unavailable h = refl

module _ {X : Type 0} (V : SecretStore X) (x : X) where
  hydrate_ai-persisted :
      (h : Hydrated) → persisted (hydrate_ai V x h).settings ≡ persisted h.settings
  unfolding hydrate_ai
  hydrate_ai-persisted h =
      if_intro (λ (k : Hydrated). persisted k.settings ≡ persisted h.settings)
        h.settings.online.ai.enabled _ _ (λ b. take_ai-persisted _ h) (λ b. refl)

  hydrate_translation-persisted :
      (h : Hydrated) → persisted (hydrate_translation V x h).settings ≡ persisted h.settings
  unfolding hydrate_translation
  hydrate_translation-persisted h =
      if_intro (λ (k : Hydrated). persisted k.settings ≡ persisted h.settings)
        (h.settings.online.candidate_translations_enabled
          && uses_deeplx h.settings.online.translation_provider)
        (take_translation (V.lookup x deeplx_entry) h) h (λ b. take_translation-persisted _ h)
        (λ b. refl)

  hydrate_voice-persisted :
      (h : Hydrated) → persisted (hydrate_voice V x h).settings ≡ persisted h.settings
  unfolding hydrate_voice
  hydrate_voice-persisted h =
      if_intro (λ (k : Hydrated). persisted k.settings ≡ persisted h.settings)
        h.settings.voice.enabled _ _ (λ b. take_voice-persisted _ h) (λ b. refl)

  -- Whatever the credential service answers, loading with the credentials leaves every setting that
  -- the file keeps as it was (all but the credentials, the facts about this run and the two timeouts
  -- of dictation): a service that cannot be reached switches no feature off on disk.
  pub hydrate-persisted : (s : InputSettings) → persisted (hydrate V x s).settings ≡ persisted s
  unfolding hydrate
  hydrate-persisted s =
      hydrate_voice-persisted _ ∙ hydrate_translation-persisted _ ∙ hydrate_ai-persisted _
