-- ===== src/Settings/Tests.antt =====
-- Concrete runs of the settings store (src/SettingsStore.cpp): a key file that is a function of the
-- group and the key, without escapes, and a GLib that takes every text for UTF-8.
use msime_linux.Base.{
  Bool, true, false, Option, none, some, [], ◌∷◌, Bytes, bytes_eq, bytes_eq_iff, codes, ◌==◌,
  all_of, if◌then◌else◌, ◌≡◌, ◌⊎◌, refl, ap,
}
use Prim.Native.String.{String}
use msime_linux.Settings.Types.{InputSettings, default_settings}
use msime_linux.Settings.KeyFile.{ℤ, pos, KeyFile, KeyFileLaws, same_place}
use msime_linux.Settings.Valid.{
  Checks, valid_input_settings, within, valid_online_settings, valid_https_endpoint,
  valid_translation_language, valid_voice_settings, valid_utf8_text, is_member,
}
use msime_linux.Online.Endpoint.{token_allowed, endpoint_allowed}
use msime_linux.Settings.Load.{load, contents, nothing}
use msime_linux.Settings.Save.{stored}
use msime_linux.Settings.Stored.{ChecksLaws, is_ascii}
use msime_linux.Settings.RoundTrip.{persisted, load-stored}
use msime_linux.Settings.Disk.{
  Disk, version, no_file, absent, regular, System, wrote, interrupted, cannot_replace, write_all,
  save_unlocked, key_file_of, read_config, write_settings, write_serialized, replace_config,
}
use msime_linux.Settings.Replace.{
  write_all_lem, Unharmed, save_unlocked-Unharmed, load-save_unlocked,
}
use msime_linux.Settings.Secrets.{
  kind_eq, Entry, entry_eq, Lookup, found, not_found, SecretStore, SecretLaws, ai_entry,
  voice_entry, uses_deeplx, hydrate,
}
use msime_linux.Settings.Hydrate.{hydrate-persisted}
use msime_linux.Settings.Plan.{
  plan_all, plan_ai, plan_translation, plan_voice, plan_credential, token_to_store, plan_value,
  plan_abandoned, plan_forgotten, plan_removal, is_removed, then_plan,
}
use msime_linux.Settings.EditLemmas.{member-has}
use msime_linux.Settings.Commit.{
  save_with_secrets_unlocked, save_if_unchanged, execute, look_up_previous, any_unreachable,
  drop_needless, commit, apply_all, apply_one, is_found, store_file, rolled_back, rollback,
}
use msime_linux.Settings.Names.{ai_provider_name}
use msime_linux.Settings.Conflict.{save_if_unchanged-untouched}
use msime_linux.Settings.Tokens.{edit_keeps_token_with_provider}
use msime_linux.Settings.Forget.{forgotten_credential_is_gone}
use msime_linux.Settings.Atomic.{entry_eq_refl, failed_save_keeps_credentials}
use msime_linux.Settings.Parse.{valid_text, valid_text-valid_utf8_text}
use msime_linux.Settings.Edit.{helpcode_schemas, edit, after}
use msime_linux.Settings.EditKeeps.{edit-valid_input_settings}
use msime_linux.Settings.Endpoints.{valid_https_endpoint-endpoint_allowed}
use msime_linux.Settings.Keeps.{silenced}
use msime_linux.Settings.Storable.{load-Storable}

abbrev ToyFile : Type 0
ToyFile = String → String → Option Bytes

abbrev toy_integer : Bytes → Option ℤ
toy_integer (n ∷ []) = some (pos n)
toy_integer _ = none

abbrev toy_boolean : Bytes → Option Bool
toy_boolean (n ∷ []) = some (n == 1)
toy_boolean _ = none

-- Every text parses as `read`.
abbrev toy_files : ToyFile → KeyFile ToyFile
toy_files read = record {
  empty = λ group key. none;
  load_from_data = λ bytes. some read;
  to_data = λ f. f "input" "page-size";
  value = λ f group key. f group key;
  set_value = λ f group key v group' key'.
      if same_place group key group' key' then some v else f group' key';
  remove_key =
      λ f group key group' key'. if same_place group key group' key' then none else f group' key';
  escape = λ v. v;
  unescape = some;
  print_boolean = λ b. (if b then 1 else 0) ∷ [];
  parse_boolean = toy_boolean;
  print_integer = λ n. n ∷ [];
  parse_integer = toy_integer;
}

abbrev toy_checks : Checks
toy_checks = record {
  utf8_validate = λ v. true;
  is_supported_helpcode_schema = λ v. bytes_eq v (codes "lantian");
}

toy_boolean_lem : (b : Bool) → toy_boolean ((if b then 1 else 0) ∷ []) ≡ some b
toy_boolean_lem true = refl
toy_boolean_lem false = refl

toy_glib : (read : ToyFile) → KeyFileLaws (toy_files read) toy_checks.utf8_validate
toy_glib read = record {
  value_set = λ f group key v group' key' h h'. refl;
  value_remove = λ f group key group' key' h h'. refl;
  unescape_escape = λ v h. refl;
  parse_print_boolean = toy_boolean_lem;
  parse_print_integer = λ n h. refl;
}

lantian_is_ascii : (v : Bytes) → bytes_eq v (codes "lantian") ≡ true → is_ascii v ≡ true
unfolding is_ascii
lantian_is_ascii v h = ap is_ascii ((bytes_eq_iff v (codes "lantian")).0 h)

toy_checks_laws : ChecksLaws toy_checks
toy_checks_laws = record { ascii_is_utf8 = λ v h. refl; schema_is_ascii = lantian_is_ascii }

-- Dictation with a key of its own, five candidates to a page.
abbrev dictation : InputSettings
dictation = record default_settings {
  page_size = 5;
  voice = record default_settings.voice {
    enabled = true;
    token = codes "key";
    language = codes "fr";
  };
}

dictation_valid : valid_input_settings toy_checks dictation ≡ true
unfolding valid_input_settings all_of within bytes_eq valid_online_settings valid_https_endpoint
    valid_translation_language token_allowed valid_voice_settings
dictation_valid = refl

default_valid : valid_input_settings toy_checks default_settings ≡ true
unfolding valid_input_settings all_of within bytes_eq valid_online_settings valid_https_endpoint
    valid_translation_language token_allowed valid_voice_settings
default_valid = refl

-- A file that holds a page size that is out of range and a key of its own.
abbrev old_file : ToyFile
old_file group key =
    if same_place group key "input" "page-size" then some (20 ∷ []) else some (codes "other")

load-stored_example :
    load (toy_files (stored (toy_files old_file) dictation old_file)) toy_checks (contents [])
    ≡ (persisted dictation, nothing)
unfolding stored
load-stored_example =
    load-stored (toy_files (stored (toy_files old_file) dictation old_file)) toy_checks
      (toy_glib (stored (toy_files old_file) dictation old_file)) toy_checks_laws dictation old_file
      [] dictation_valid refl

load-Storable_example :
    valid_input_settings toy_checks
      (silenced (load (toy_files old_file) toy_checks (contents [])).0)
    ≡ true
load-Storable_example = load-Storable (toy_files old_file) toy_checks (contents []) default_valid

-- A credential service that holds a function, and never fails.
abbrev ToySecrets : Type 0
ToySecrets = Entry → Option Bytes

abbrev toy_answer : Option Bytes → Lookup
toy_answer (some v) = found v
toy_answer none = not_found

abbrev toy_service : SecretStore ToySecrets
toy_service = record {
  lookup = λ x e. toy_answer (x e);
  store = λ x e v. (true, λ e'. if entry_eq e e' then some v else x e');
  erase = λ x e. (true, λ e'. if entry_eq e e' then none else x e');
}

toy_found : (o : Option Bytes) (v : Bytes) → toy_answer o ≡ found v → o ≡ some v
toy_found (some w) v h = cc h
toy_found none v h = absurd (cc h)

toy_not_found : (o : Option Bytes) → toy_answer o ≡ not_found → o ≡ none
toy_not_found (some w) h = absurd (cc h)
toy_not_found none h = refl

toy_service-SecretLaws : SecretLaws toy_service (λ x e. x e)
toy_service-SecretLaws = record {
  lookup_found = λ x e v h. toy_found (x e) v h;
  lookup_not_found = λ x e h. toy_not_found (x e) h;
  store_done = λ x e v h. rw (entry_eq_refl e) refl;
  store_other = λ x e e' v h. rw h refl;
  erase_done = λ x e h. rw (entry_eq_refl e) refl;
  erase_other = λ x e e' h. rw h refl;
}

-- A system that writes in pieces, is interrupted once, and then cannot replace the file.
abbrev toy_system : Bool → System
toy_system replaces = record {
  locks = true;
  makes_directory = true;
  reads = true;
  renames_corrupt = true;
  creates = true;
  writes = wrote 1 ∷ interrupted ∷ [];
  syncs = true;
  closes = true;
  replaces = replaces;
  unlinks = true;
}

abbrev new_disk : Disk
new_disk = record { config = absent; rescued = none; temporary = false }

abbrev old_disk : Disk
old_disk = record { config = regular (1 ∷ 2 ∷ []); rescued = none; temporary = false }

abbrev toy_digest : Bytes → Bytes
toy_digest v = 9 ∷ v

-- The service holds an older key for the provider of dictation.
abbrev old_secrets : ToySecrets
old_secrets e = if entry_eq e (voice_entry dictation) then some (codes "old") else none

write_all_lem_example : (write_all (wrote 1 ∷ interrupted ∷ []) (codes "abc")).1 ≡ codes "abc"
unfolding write_all
write_all_lem_example = write_all_lem (wrote 1 ∷ interrupted ∷ []) (codes "abc") refl

-- The old file cannot be parsed.
abbrev corrupt_files : KeyFile ToyFile
corrupt_files = record (toy_files old_file) { load_from_data = λ bytes. none }

save_unlocked-Unharmed_example :
    Unharmed corrupt_files old_disk
      (save_unlocked corrupt_files toy_checks toy_digest (toy_system false) dictation old_disk).disk
unfolding save_unlocked write_settings key_file_of write_serialized stored replace_config
    valid_input_settings all_of within bytes_eq valid_online_settings valid_https_endpoint
    valid_translation_language token_allowed valid_voice_settings
save_unlocked-Unharmed_example =
    save_unlocked-Unharmed corrupt_files toy_checks toy_digest (toy_system false) dictation old_disk
      cannot_replace refl

-- Every text parses as dictation stored in an empty file.
abbrev own_files : KeyFile ToyFile
own_files = toy_files (stored (toy_files old_file) dictation (toy_files old_file).empty)

abbrev started : Option (ToyFile × Disk) → ToyFile
started none = old_file
started (some (f, d)) = f

own_file_parses :
    (f : ToyFile) (d' : Disk) (bytes : Bytes)
    → key_file_of own_files (toy_system true) new_disk new_disk.config ≡ some (f, d')
    → own_files.to_data (stored own_files dictation f) ≡ some bytes
    → own_files.load_from_data bytes ≡ some (stored own_files dictation f)
unfolding key_file_of stored
own_file_parses f d' bytes k t =
    ap (λ g. some (stored own_files dictation g)) (ap (λ o. started o) k)

load-save_unlocked_example :
    load own_files toy_checks (
      read_config true
        (save_unlocked own_files toy_checks toy_digest
          (toy_system true)
          dictation
          new_disk).disk.config)
    ≡ (persisted dictation, nothing)
unfolding save_unlocked write_settings key_file_of write_serialized stored replace_config
    valid_input_settings all_of within bytes_eq valid_online_settings valid_https_endpoint
    valid_translation_language token_allowed valid_voice_settings
load-save_unlocked_example =
    load-save_unlocked own_files toy_checks toy_digest
      (toy_glib (stored (toy_files old_file) dictation (toy_files old_file).empty)) toy_checks_laws
      (toy_system true) dictation new_disk own_file_parses refl

hydrate-persisted_example :
    persisted (hydrate toy_service old_secrets dictation).settings ≡ persisted dictation
hydrate-persisted_example = hydrate-persisted toy_service old_secrets dictation

failed_save_keeps_credentials_example :
    (save_with_secrets_unlocked toy_service
        (toy_files old_file)
        toy_checks
        toy_digest
        (toy_system false)
        dictation
        old_secrets
        new_disk).secrets
      (voice_entry dictation)
    ≡ old_secrets (voice_entry dictation)
unfolding save_with_secrets_unlocked save_unlocked write_settings key_file_of write_serialized
    stored replace_config valid_input_settings all_of within bytes_eq valid_online_settings
    valid_https_endpoint valid_translation_language token_allowed valid_voice_settings plan_all
    plan_ai plan_translation plan_voice plan_credential token_to_store plan_value uses_deeplx
    plan_abandoned plan_forgotten plan_removal load read_config execute look_up_previous
    any_unreachable drop_needless commit apply_all store_file rolled_back rollback then_plan
failed_save_keeps_credentials_example =
    failed_save_keeps_credentials toy_service (λ x e. x e) toy_service-SecretLaws
      (toy_files old_file) toy_checks toy_digest (toy_system false) dictation old_secrets new_disk
      cannot_replace (voice_entry dictation) refl (λ h. absurd (cc h))

-- Forgetting the key of the AI provider, which the service holds.
abbrev forgetful : InputSettings
forgetful = record default_settings {
  online = record default_settings.online { ai_credential_cleared = true };
}

abbrev ai_secrets : ToySecrets
ai_secrets e = if entry_eq e (ai_entry forgetful) then some (codes "old") else none

forgotten_credential_is_gone_example :
    (save_with_secrets_unlocked toy_service
        (toy_files old_file)
        toy_checks
        toy_digest
        (toy_system true)
        forgetful
        ai_secrets
        new_disk).secrets
      (ai_entry forgetful)
    ≡ none
unfolding save_with_secrets_unlocked save_unlocked write_settings key_file_of write_serialized
    stored replace_config valid_input_settings all_of within bytes_eq valid_online_settings
    valid_https_endpoint valid_translation_language token_allowed valid_voice_settings plan_all
    plan_ai plan_translation plan_voice plan_credential token_to_store plan_value uses_deeplx
    plan_abandoned plan_forgotten plan_removal load read_config execute look_up_previous
    any_unreachable drop_needless commit apply_all store_file rolled_back rollback then_plan
    is_removed entry_eq kind_eq ai_provider_name apply_one is_found
forgotten_credential_is_gone_example =
    forgotten_credential_is_gone toy_service (λ x e. x e) toy_service-SecretLaws
      (toy_files old_file) toy_checks toy_digest (toy_system true) forgetful ai_secrets new_disk
      refl (λ h. absurd (cc h)) refl

valid_text-valid_utf8_text_example :
    valid_text toy_checks 8 true (codes "a b\n") ≡ valid_utf8_text toy_checks 8 true (codes "a b\n")
valid_text-valid_utf8_text_example = valid_text-valid_utf8_text toy_checks 8 true (codes "a b\n")

valid_https_endpoint-endpoint_allowed_example :
    endpoint_allowed (codes "https://host/v1") false ≡ true
unfolding valid_https_endpoint
valid_https_endpoint-endpoint_allowed_example =
    valid_https_endpoint-endpoint_allowed toy_checks (codes "https://host/v1") false refl refl

-- A composition library that supports the schemas of the window.
abbrev window_checks : Checks
window_checks = record {
  utf8_validate = λ v. true;
  is_supported_helpcode_schema = λ v. is_member v helpcode_schemas;
}

schemas_are_ascii : (v : Bytes) → is_member v helpcode_schemas ≡ true → is_ascii v ≡ true
unfolding all_of is_ascii
schemas_are_ascii v h = member-has is_ascii helpcode_schemas v refl h

window_checks_laws : ChecksLaws window_checks
window_checks_laws = record { ascii_is_utf8 = λ v h. refl; schema_is_ascii = schemas_are_ascii }

edit-valid_input_settings_example :
    valid_input_settings window_checks
      (after (edit window_checks "voice-polish-model" (codes "large") dictation) dictation)
    ≡ true
unfolding valid_input_settings all_of within bytes_eq valid_online_settings valid_https_endpoint
    valid_translation_language token_allowed valid_voice_settings is_member
edit-valid_input_settings_example =
    edit-valid_input_settings window_checks dictation "voice-polish-model" (codes "large")
      window_checks_laws (λ a h. h) refl refl refl

save_if_unchanged-untouched_example :
    (version toy_digest (toy_system true) old_disk ≡ some no_file)
    ⊎ (((save_if_unchanged toy_service
            (toy_files old_file)
            toy_checks
            toy_digest
            (toy_system true)
            dictation
            no_file
            old_secrets
            old_disk).secrets
          ≡ old_secrets)
        × ((save_if_unchanged toy_service
              (toy_files old_file)
              toy_checks
              toy_digest
              (toy_system true)
              dictation
              no_file
              old_secrets
              old_disk).disk
            ≡ old_disk))
save_if_unchanged-untouched_example =
    save_if_unchanged-untouched toy_service (toy_files old_file) toy_checks toy_digest
      (toy_system true) dictation no_file old_secrets old_disk

-- A token for the provider that is selected at first.
abbrev with_token : InputSettings
with_token = record default_settings {
  online = record default_settings.online {
    ai = record default_settings.online.ai { token = codes "key" };
  };
}

edit_keeps_token_with_provider_example :
    ((after
        (edit toy_checks "ai-provider" (codes "openai") with_token)
        with_token).online.ai.provider
      ≡ with_token.online.ai.provider)
    ⊎ ((after
          (edit toy_checks "ai-provider" (codes "openai") with_token)
          with_token).online.ai.token
        ≡ [])
edit_keeps_token_with_provider_example =
    edit_keeps_token_with_provider toy_checks with_token "ai-provider" (codes "openai")
