-- ===== src/Settings/Secrets.antt =====
-- The credentials of the providers (src/SecretStore.h), and loading the settings together with them
-- (`SettingsStore::load` with a secret store, src/SettingsStore.cpp).
use msime_linux.Base.{
  Bool, true, false, ◌&&◌, Option, none, some, List, [], ◌∷◌, ◌++◌, Bytes, bytes_eq, if◌then◌else◌,
  ◌≡◌,
}
use msime_linux.Settings.Types.{InputSettings, TranslationProvider}
use msime_linux.Settings.Names.{ai_provider_name, translation_provider_name}

pub data SecretKind : Type 0 where
  ai_api_token translation_api_token voice_api_token account_session : SecretKind

unfoldable pub kind_eq : SecretKind → SecretKind → Bool
kind_eq ai_api_token ai_api_token = true
kind_eq translation_api_token translation_api_token = true
kind_eq voice_api_token voice_api_token = true
kind_eq account_session account_session = true
kind_eq _ _ = false

-- The name of a credential: its kind and its provider.
pub record Entry : Type 0 where
  pub kind : SecretKind
  pub provider : Bytes

unfoldable pub entry_eq : Entry → Entry → Bool
unfolding kind_eq bytes_eq
entry_eq a b = kind_eq a.kind b.kind && bytes_eq a.provider b.provider

-- `SecretLookupResult`.
pub data Lookup : Type 0 where
  found : Bytes → Lookup
  not_found unavailable : Lookup

-- A credential service whose state is an `X`; `store` and `erase` say whether they succeeded.
pub record SecretStore (X : Type 0) : Type 0 where
  pub lookup : X → Entry → Lookup
  pub store : X → Entry → Bytes → Bool × X
  pub erase : X → Entry → Bool × X

-- What the interface promises of a service that holds `held x e` under the name `e`: an answer is
-- true, a success did what was asked, and a call concerns the credential it names alone.
pub record SecretLaws {X : Type 0} (V : SecretStore X) (held : X → Entry → Option Bytes)
    : Type 0 where
  pub lookup_found : (x : X) (e : Entry) (v : Bytes) → V.lookup x e ≡ found v → held x e ≡ some v
  pub lookup_not_found : (x : X) (e : Entry) → V.lookup x e ≡ not_found → held x e ≡ none
  pub store_done :
      (x : X) (e : Entry) (v : Bytes) → (V.store x e v).0 ≡ true → held (V.store x e v).1 e ≡ some v
  pub store_other :
      (x : X) (e e' : Entry) (v : Bytes)
      → entry_eq e e' ≡ false
      → held (V.store x e v).1 e' ≡ held x e'
  pub erase_done : (x : X) (e : Entry) → (V.erase x e).0 ≡ true → held (V.erase x e).1 e ≡ none
  pub erase_other :
      (x : X) (e e' : Entry) → entry_eq e e' ≡ false → held (V.erase x e).1 e' ≡ held x e'

-- What `load` appends to its warning.
pub data CredentialWarning : Type 0 where
  ai_unreachable ai_missing translation_unreachable voice_unreachable voice_missing :
      CredentialWarning

pub record Hydrated : Type 0 where
  pub settings : InputSettings
  pub warnings : List CredentialWarning

unfoldable pub uses_deeplx : TranslationProvider → Bool
uses_deeplx TranslationProvider.local_dictionary = false
uses_deeplx TranslationProvider.deep_lx = true

abbrev pub ai_entry : InputSettings → Entry
ai_entry s = record { kind = ai_api_token; provider = ai_provider_name s.online.ai.provider }

abbrev pub deeplx_entry : Entry
deeplx_entry = record {
  kind = translation_api_token;
  provider = translation_provider_name TranslationProvider.deep_lx;
}

abbrev pub voice_entry : InputSettings → Entry
voice_entry s = record { kind = voice_api_token; provider = s.voice.provider }

unfoldable pub take_ai : Lookup → Hydrated → Hydrated
take_ai (found v) h = record h {
  settings = record h.settings {
    online = record h.settings.online { ai = record h.settings.online.ai { token = v } };
  };
}
take_ai not_found h = record {
  settings = record h.settings {
    online = record h.settings.online { ai_credential_available = false };
  };
  warnings = h.warnings ++ (ai_missing ∷ []);
}
take_ai unavailable h = record {
  settings = record h.settings {
    online = record h.settings.online { ai_credential_available = false };
  };
  warnings = h.warnings ++ (ai_unreachable ∷ []);
}

unfoldable pub take_translation : Lookup → Hydrated → Hydrated
take_translation (found v) h = record h {
  settings = record h.settings { online = record h.settings.online { translation_token = v } };
}
take_translation not_found h = h
take_translation unavailable h = record {
  settings = record h.settings {
    online = record h.settings.online { translation_credential_available = false };
  };
  warnings = h.warnings ++ (translation_unreachable ∷ []);
}

unfoldable pub take_voice : Lookup → Hydrated → Hydrated
take_voice (found v) h = record h {
  settings = record h.settings { voice = record h.settings.voice { token = v } };
}
take_voice not_found h = record {
  settings = record h.settings { voice_credential_available = false };
  warnings = h.warnings ++ (voice_missing ∷ []);
}
take_voice unavailable h = record {
  settings = record h.settings { voice_credential_available = false };
  warnings = h.warnings ++ (voice_unreachable ∷ []);
}

module _ {X : Type 0} (V : SecretStore X) (x : X) where
  unfoldable pub hydrate_ai : Hydrated → Hydrated
  unfolding take_ai
  hydrate_ai h =
      if h.settings.online.ai.enabled then take_ai (V.lookup x (ai_entry h.settings)) h else h

  unfoldable pub hydrate_translation : Hydrated → Hydrated
  unfolding take_translation
  hydrate_translation h =
      if h.settings.online.candidate_translations_enabled
        && uses_deeplx h.settings.online.translation_provider
      then take_translation (V.lookup x deeplx_entry) h
      else h

  unfoldable pub hydrate_voice : Hydrated → Hydrated
  unfolding take_voice
  hydrate_voice h =
      if h.settings.voice.enabled then take_voice (V.lookup x (voice_entry h.settings)) h else h

  -- `load`, from the settings that the file gave.
  unfoldable pub hydrate : InputSettings → Hydrated
  unfolding hydrate_ai hydrate_translation hydrate_voice
  hydrate s =
      hydrate_voice (hydrate_translation (hydrate_ai (record { settings = s; warnings = [] })))
