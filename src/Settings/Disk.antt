-- ===== src/Settings/Disk.antt =====
-- The settings file on disk (`save_unlocked`, `version` and `write_all` of src/SettingsStore.cpp).
-- What the system answers to the calls of one save is a record that the save takes.
use msime_linux.Base.{
  ℕ, Bool, true, false, not, ◌&&◌, ◌||◌, Option, none, some, List, [], ◌∷◌, ◌++◌, Bytes, bytes_eq,
  is_empty, take, drop, ◌==◌, if◌then◌else◌,
}
use msime_linux.Settings.Types.{InputSettings}
use msime_linux.Settings.KeyFile.{KeyFile}
use msime_linux.Settings.Valid.{Checks, valid_input_settings}
use msime_linux.Settings.Load.{FileRead, contents, missing, unreadable}
use msime_linux.Settings.Save.{stored}

-- What stands at the path of the settings; `irregular` is a directory or a device.
pub data ConfigFile : Type 0 where
  absent irregular : ConfigFile
  regular : Bytes → ConfigFile

-- `config.ini`, what `config.ini.corrupt` holds, and whether a temporary file of this save is left.
pub record Disk : Type 0 where
  pub config : ConfigFile
  pub rescued : Option Bytes
  pub temporary : Bool

-- An answer of `write`: so many bytes, EINTR, or another error.
pub data Written : Type 0 where
  wrote : ℕ → Written
  interrupted refused : Written

-- The answers of the system: whether the file is locked, can be read, and so on. After `writes`
-- a last `write` takes all that is left.
pub record System : Type 0 where
  pub locks : Bool
  pub makes_directory : Bool
  pub reads : Bool
  pub renames_corrupt : Bool
  pub creates : Bool
  pub writes : List Written
  pub syncs : Bool
  pub closes : Bool
  pub replaces : Bool
  pub unlinks : Bool

pub data SaveError : Type 0 where
  out_of_range cannot_lock no_directory cannot_preserve cannot_serialize cannot_create
        cannot_replace :
      SaveError
  no_ai_credential no_voice_credential no_voice_provider : SaveError
  cannot_access_credentials cannot_update_credentials credentials_need_repair changed : SaveError

-- What a save leaves: the error if it failed, the disk, and the digest if it was reported.
pub record Saved : Type 0 where
  pub error : Option SaveError
  pub disk : Disk
  pub digest : Option Bytes

-- Whether all bytes were written, and the bytes that were.
unfoldable pub write_all : List Written → Bytes → Bool × Bytes
write_all answers [] = (true, [])
write_all [] (c ∷ rest) = (true, c ∷ rest)
write_all (interrupted ∷ answers) (c ∷ rest) = write_all answers (c ∷ rest)
write_all (refused ∷ answers) (c ∷ rest) = (false, [])
write_all (wrote n ∷ answers) (c ∷ rest) =
    let later = write_all answers (drop n (c ∷ rest)) in
    if n == 0 then (false, []) else (later.0, take n (c ∷ rest) ++ later.1)

unfoldable pub read_config : Bool → ConfigFile → FileRead
read_config reads absent = missing
read_config reads irregular = unreadable
read_config reads (regular bytes) = if reads then contents bytes else unreadable

abbrev pub failed : SaveError → Disk → Option Bytes → Saved
failed e d digest = record { error = some e; disk = d; digest = digest }

-- `SettingsFileVersion`.
pub data Version : Type 0 where
  no_file : Version
  digest_of_file : Bytes → Version

unfoldable pub version_eq : Version → Version → Bool
version_eq no_file no_file = true
version_eq (digest_of_file d) (digest_of_file e) = bytes_eq d e
version_eq _ _ = false

module _ {F : Type 0} (G : KeyFile F) where
  -- A file that does not parse is put aside.
  unfoldable pub rescue : System → Disk → Bytes → Option F → F × Disk
  rescue io d bytes (some f) = (f, d)
  rescue io d bytes none = (
    G.empty,
    if io.renames_corrupt then record d { config = absent; rescued = some bytes } else d,
  )

  -- The key file to start from, with the disk after that.
  unfoldable pub key_file_of : System → Disk → ConfigFile → Option (F × Disk)
  key_file_of io d absent = some (G.empty, d)
  key_file_of io d irregular = none
  key_file_of io d (regular bytes) =
      if io.reads then some (rescue io d bytes (G.load_from_data bytes)) else none

module _ (digest_of : Bytes → Bytes) where
  unfoldable pub replace_config : System → Bytes → Disk → Saved
  unfolding write_all
  replace_config io bytes d =
      let w = write_all io.writes bytes in
      if not io.creates
      then failed cannot_create d (some (digest_of bytes))
      else if not (w.0 && io.syncs) || not io.closes || not io.replaces
      then failed cannot_replace (record d { temporary = not io.unlinks }) (some (digest_of bytes))
      else record {
        error = none;
        disk = record d { config = regular w.1 };
        digest = some (digest_of bytes);
      }

  unfoldable pub write_serialized : System → Disk → Option Bytes → Saved
  write_serialized io d none = failed cannot_serialize d none
  write_serialized io d (some bytes) = replace_config io bytes d

  unfoldable pub version_of : FileRead → Option Version
  version_of missing = some no_file
  version_of unreadable = none
  version_of (contents bytes) =
      if is_empty (digest_of bytes) then none else some (digest_of_file (digest_of bytes))

  unfoldable pub version : System → Disk → Option Version
  version io d = version_of (read_config io.reads d.config)

module _ {F : Type 0} (G : KeyFile F) (digest_of : Bytes → Bytes) where
  unfoldable pub write_settings : System → InputSettings → Disk → Option (F × Disk) → Saved
  write_settings io s d none = failed cannot_preserve d none
  write_settings io s d (some (f, d')) = write_serialized digest_of io d' (G.to_data (stored G s f))

module _ {F : Type 0} (G : KeyFile F) (K : Checks) (digest_of : Bytes → Bytes) where
  unfoldable pub save_unlocked : System → InputSettings → Disk → Saved
  save_unlocked io s d =
      if not (valid_input_settings K s)
      then failed out_of_range d none
      else if not io.makes_directory
      then failed no_directory d none
      else write_settings G digest_of io s d (key_file_of G io d d.config)

  unfoldable pub save : System → InputSettings → Disk → Saved
  save io s d =
      if not (valid_input_settings K s)
      then failed out_of_range d none
      else if not io.locks
      then failed cannot_lock d none
      else save_unlocked io s d
