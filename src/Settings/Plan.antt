-- ===== src/Settings/Plan.antt =====
-- Which credentials a save writes and removes (`save_with_secrets_unlocked` of
-- src/SettingsStore.cpp, up to the first change).
use msime_linux.Base.{
  Bool, true, false, not, ◌&&◌, ◌||◌, Option, none, some, List, [], ◌∷◌, ◌++◌, Bytes, bytes_eq,
  is_empty, if◌then◌else◌,
}
use msime_linux.Settings.Types.{InputSettings}
use msime_linux.Settings.Names.{ai_provider_name}
use msime_linux.Settings.Disk.{
  SaveError, no_ai_credential, no_voice_credential, no_voice_provider, cannot_access_credentials,
}
use msime_linux.Settings.Secrets.{
  Entry, entry_eq, Lookup, found, not_found, unavailable, SecretStore, uses_deeplx, ai_entry,
  deeplx_entry, voice_entry,
}

-- `PendingSecret`; which of them were attempted is a list of its own.
pub record Pending : Type 0 where
  pub entry : Entry
  pub value : Bytes
  pub remove : Bool
  pub previous : Lookup

abbrev pub writing : Entry → Bytes → Pending
writing e v = record { entry = e; value = v; remove = false; previous = not_found }

abbrev pub removing : Entry → Pending
removing e = record { entry = e; value = []; remove = true; previous = not_found }

pub data Plan : Type 0 where
  refuse : SaveError → Plan
  plan : List Pending → Plan

unfoldable pub then_plan : Plan → (List Pending → Plan) → Plan
then_plan (refuse e) f = refuse e
then_plan (plan p) f = f p

-- The token without the copy of the credential of the provider before; none when the service does
-- not answer.
unfoldable pub without_copy : Lookup → Bytes → Option Bytes
without_copy (found v) token = some (if bytes_eq v token then [] else token)
without_copy not_found token = some token
without_copy unavailable token = none

unfoldable pub require_stored : Option SaveError → Lookup → List Pending → Plan
require_stored none r p = plan p
require_stored (some e) not_found p = refuse e
require_stored (some e) (found v) p = plan p
require_stored (some e) unavailable p = plan p

module _ {X : Type 0} (V : SecretStore X) (x : X) where
  unfoldable pub token_to_store : Entry → Bytes → Bytes → Option Bytes
  unfolding without_copy
  token_to_store e token previous =
      if not (is_empty token) && not (is_empty previous) && not (bytes_eq previous e.provider)
      then without_copy (V.lookup x (record e { provider = previous })) token
      else some token

  unfoldable pub plan_value : Entry → Option Bytes → Option SaveError → List Pending → Plan
  unfolding require_stored
  plan_value e none missing p = refuse cannot_access_credentials
  plan_value e (some v) missing p =
      if not (is_empty v)
      then plan (p ++ (writing e v ∷ []))
      else require_stored missing (V.lookup x e) p

  unfoldable pub plan_credential : Entry → Bytes → Bytes → Option SaveError → List Pending → Plan
  unfolding token_to_store plan_value
  plan_credential e token previous missing p =
      plan_value e (token_to_store e token previous) missing p

unfoldable pub is_removed : Entry → List Pending → Bool
unfolding entry_eq
is_removed e [] = false
is_removed e (q ∷ qs) = (q.remove && entry_eq q.entry e) || is_removed e qs

unfoldable pub plan_removal : Entry → List Pending → List Pending
unfolding is_removed
plan_removal e p = if is_empty e.provider || is_removed e p then p else p ++ (removing e ∷ [])

-- The providers whose credentials the settings on disk use.
abbrev previous_ai : InputSettings → Bytes
previous_ai s = if s.online.ai.enabled then ai_provider_name s.online.ai.provider else []

abbrev pub uses_translation_credential : InputSettings → Bool
uses_translation_credential s =
    s.online.candidate_translations_enabled && uses_deeplx s.online.translation_provider

abbrev previous_translation : InputSettings → Bytes
previous_translation s = if uses_translation_credential s then deeplx_entry.provider else []

abbrev previous_voice : InputSettings → Bytes
previous_voice s = if s.voice.enabled then s.voice.provider else []

-- The tokens of the settings; a request to forget a credential outranks its token.
abbrev pub ai_token : InputSettings → Bytes
ai_token s = if s.online.ai_credential_cleared then [] else s.online.ai.token

abbrev translation_token_of : InputSettings → Bytes
translation_token_of s =
    if s.online.translation_credential_cleared then [] else s.online.translation_token

abbrev voice_token : InputSettings → Bytes
voice_token s = if s.voice_credential_cleared then [] else s.voice.token

abbrev unless : Bool → SaveError → Option SaveError
unless b e = if b then none else some e

module _ {X : Type 0} (V : SecretStore X) (x : X) (before : InputSettings) (s : InputSettings) where
  unfoldable pub plan_ai : List Pending → Plan
  plan_ai p =
      if s.online.ai.enabled
      then plan_credential V x (ai_entry s) (ai_token s) (previous_ai before)
          (unless s.online.ai_credential_cleared no_ai_credential) p
      else plan p

  unfoldable pub plan_translation : List Pending → Plan
  plan_translation p =
      if uses_translation_credential s
      then plan_credential V x deeplx_entry (translation_token_of s) [] none p
      else plan p

  unfoldable pub plan_voice : List Pending → Plan
  plan_voice p =
      if s.voice.enabled
      then if is_empty s.voice.provider
        then refuse no_voice_provider
        else plan_credential V x (voice_entry s) (voice_token s) (previous_voice before)
            (unless s.voice_credential_cleared no_voice_credential) p
      else plan p

-- The removals, in the order of the source.
module _ (before : InputSettings) (s : InputSettings) where
  unfoldable pub plan_abandoned : List Pending → List Pending
  unfolding plan_removal
  plan_abandoned p0 =
      let p1 =
        if s.online.ai.enabled
        then p0
        else plan_removal (record (ai_entry s) { provider = previous_ai before }) p0 in
      let p2 =
        if uses_translation_credential s
        then p1
        else plan_removal (record deeplx_entry { provider = previous_translation before }) p1 in
      if s.voice.enabled
      then p2
      else plan_removal (record (voice_entry s) { provider = previous_voice before }) p2

unfoldable pub plan_forgotten : InputSettings → List Pending → List Pending
unfolding plan_removal
plan_forgotten s p0 =
    let p1 = if s.online.ai_credential_cleared then plan_removal (ai_entry s) p0 else p0 in
    let p2 = if s.online.translation_credential_cleared then plan_removal deeplx_entry p1 else p1 in
    if s.voice_credential_cleared then plan_removal (voice_entry s) p2 else p2

module _ {X : Type 0} (V : SecretStore X) (x : X) (before : InputSettings) (s : InputSettings) where
  unfoldable pub plan_all : Plan
  unfolding then_plan plan_ai plan_translation plan_voice
  plan_all = then_plan (plan_ai V x before s []) (λ p.
      then_plan (plan_translation V x before s p) (λ q.
        then_plan (plan_voice V x before s q)
          (λ r. plan (plan_forgotten s (plan_abandoned before s r)))))
