-- ===== src/Settings/Commit.antt =====
-- Saving the settings with their credentials (`save_with_secrets_unlocked`, `save` and
-- `save_if_unchanged` of src/SettingsStore.cpp): the credentials are changed first, and put back
-- when something fails.
use msime_linux.Base.{
  Bool, true, false, not, ◌&&◌, ◌||◌, Option, none, some, List, [], ◌∷◌, Bytes, if◌then◌else◌,
}
use msime_linux.Settings.Types.{InputSettings}
use msime_linux.Settings.KeyFile.{KeyFile}
use msime_linux.Settings.Valid.{Checks, valid_input_settings}
use msime_linux.Settings.Load.{load}
use msime_linux.Settings.Disk.{
  Disk, System, SaveError, out_of_range, cannot_lock, cannot_access_credentials,
  cannot_update_credentials, credentials_need_repair, changed, Saved, read_config, save_unlocked,
  Version, version, version_eq,
}
use msime_linux.Settings.Secrets.{Entry, Lookup, found, not_found, unavailable, SecretStore}
use msime_linux.Settings.Plan.{Pending, Plan, refuse, plan, plan_all}

unfoldable pub is_unavailable : Lookup → Bool
is_unavailable unavailable = true
is_unavailable _ = false

unfoldable pub is_found : Lookup → Bool
is_found (found v) = true
is_found _ = false

unfoldable pub any_unreachable : List Pending → Bool
unfolding is_unavailable
any_unreachable [] = false
any_unreachable (p ∷ ps) = (not p.remove && is_unavailable p.previous) || any_unreachable ps

-- A removal of what is not there, or cannot be seen, is dropped.
unfoldable pub drop_needless : List Pending → List Pending
unfolding is_found
drop_needless [] = []
drop_needless (p ∷ ps) =
    let rest = drop_needless ps in if p.remove && not (is_found p.previous) then rest else p ∷ rest

-- Whether all were applied, the service after that, and what was attempted, the last one first.
pub record Applied (X : Type 0) : Type 0 where
  pub all_applied : Bool
  pub secrets : X
  pub attempted : List Pending

module _ {X : Type 0} (V : SecretStore X) where
  unfoldable pub look_up_previous : X → List Pending → List Pending
  look_up_previous x [] = []
  look_up_previous x (p ∷ ps) = record p { previous = V.lookup x p.entry } ∷ look_up_previous x ps

  unfoldable pub apply_one : X → Pending → Bool × X
  apply_one x p = if p.remove then V.erase x p.entry else V.store x p.entry p.value

  unfoldable pub undo_with : X → Entry → Lookup → Bool × X
  undo_with x e (found v) = V.store x e v
  undo_with x e not_found = V.erase x e
  undo_with x e unavailable = V.erase x e

  unfoldable pub rollback : X → List Pending → Bool × X
  unfolding undo_with
  rollback x [] = (true, x)
  rollback x (p ∷ ps) =
      let r = undo_with x p.entry p.previous in
      let rest = rollback r.1 ps in (r.0 && rest.0, rest.1)

  unfoldable pub apply_all : X → List Pending → List Pending → Applied X
  unfolding apply_one
  apply_all x attempted [] = record { all_applied = true; secrets = x; attempted = attempted }
  apply_all x attempted (p ∷ ps) =
      let r = apply_one x p in
      let rest = apply_all r.1 (p ∷ attempted) ps in
      if r.0 then rest else record { all_applied = false; secrets = r.1; attempted = p ∷ attempted }

-- What a save with credentials leaves.
pub record Committed (X : Type 0) : Type 0 where
  pub error : Option SaveError
  pub secrets : X
  pub disk : Disk
  pub digest : Option Bytes

abbrev pub untouched : {X : Type 0} → SaveError → X → Disk → Committed X
untouched e x d = record { error = some e; secrets = x; disk = d; digest = none }

-- After a roll back the error is the given one, or that the roll back failed too.
unfoldable pub rolled_back : {X : Type 0} → SaveError → Saved → Bool × X → Committed X
rolled_back e r (restored, x) = record {
  error = some (if restored then e else credentials_need_repair);
  secrets = x;
  disk = r.disk;
  digest = r.digest;
}

unfoldable pub is_version : Option Version → Version → Bool
is_version none expected = false
is_version (some v) expected = version_eq v expected

module _ {X : Type 0} {F : Type 0} (V : SecretStore X) (G : KeyFile F) (K : Checks)
    (digest_of : Bytes → Bytes) where
  unfoldable pub store_file : Saved → X → List Pending → Option SaveError → Committed X
  unfolding rolled_back
  store_file r x attempted none = record {
    error = none;
    secrets = x;
    disk = r.disk;
    digest = r.digest;
  }
  store_file r x attempted (some e) = rolled_back e r (rollback V x attempted)

  unfoldable pub commit : System → InputSettings → Disk → Applied X → Committed X
  unfolding store_file
  commit io s d a =
      if a.all_applied
      then (let r = save_unlocked G K digest_of io s d in
          store_file r a.secrets a.attempted r.error)
      else rolled_back cannot_update_credentials (record { error = none; disk = d; digest = none })
          (rollback V a.secrets a.attempted)

  unfoldable pub execute : System → InputSettings → Disk → X → Plan → Committed X
  unfolding commit any_unreachable drop_needless
  execute io s d x (refuse e) = untouched e x d
  execute io s d x (plan p) =
      let known = look_up_previous V x p in
      if any_unreachable known
      then untouched cannot_access_credentials x d
      else commit io s d (apply_all V x [] (drop_needless known))

  unfoldable pub save_with_secrets_unlocked : System → InputSettings → X → Disk → Committed X
  unfolding execute
  save_with_secrets_unlocked io s x d =
      if not (valid_input_settings K s)
      then untouched out_of_range x d
      else execute io s d x (plan_all V x (load G K (read_config io.reads d.config)).0 s)

  -- `save` with a secret store.
  unfoldable pub save_with_secrets : System → InputSettings → X → Disk → Committed X
  unfolding save_with_secrets_unlocked
  save_with_secrets io s x d =
      if not (valid_input_settings K s)
      then untouched out_of_range x d
      else if not io.locks
      then untouched cannot_lock x d
      else save_with_secrets_unlocked io s x d

  unfoldable pub save_if_unchanged : System → InputSettings → Version → X → Disk → Committed X
  unfolding save_with_secrets_unlocked is_version
  save_if_unchanged io s expected x d =
      if not (valid_input_settings K s)
      then untouched out_of_range x d
      else if not io.locks
      then untouched cannot_lock x d
      else if not (is_version (version digest_of io d) expected)
      then untouched changed x d
      else save_with_secrets_unlocked io s x d
