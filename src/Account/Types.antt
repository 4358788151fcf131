-- ===== src/Account/Types.antt =====
-- The values that an account session passes between the account service, the keyring and its
-- callers (src/account/BackendAccountClient.h, src/account/AccountCredentialStore.h). A 64-bit
-- integer is its bit pattern, and so is a `double`.
use msime_linux.Base.{
  ℕ, ◌^◌, ◌%◌, Bool, true, false, not, ◌&&◌, ◌||◌, Option, List, [], ◌∷◌, Bytes, bytes_eq, ltb,
  ◌==◌, if◌then◌else◌,
}

pub record User : Type 0 where
  pub id : Bytes
  pub display_name : Bytes
  pub created_at : Bytes

pub record Tokens : Type 0 where
  pub access_token : Bytes
  pub refresh_token : Bytes
  pub expires_in : ℕ
  pub user : User

pub record SavedSession : Type 0 where
  pub tokens : Tokens
  pub expires_at : ℕ

pub record Challenge : Type 0 where
  pub id : Bytes
  pub expires_in : ℕ
  pub nonce : Bytes
  pub authorization_url : Bytes

pub record Identity : Type 0 where
  pub provider : Bytes
  pub subject : Bytes

pub record Profile : Type 0 where
  pub user : User
  pub identities : List Identity

pub data PreferenceValue : Type 0 where
  flag : Bool → PreferenceValue
  integer : ℕ → PreferenceValue
  double : ℕ → PreferenceValue
  text : Bytes → PreferenceValue

-- A `std::map` is the list of its entries in the order of their keys.
abbrev pub Settings : Type 0
Settings = List (Bytes × PreferenceValue)

pub record Preferences : Type 0 where
  pub revision : ℕ
  pub settings : Settings

pub record PreferenceField : Type 0 where
  pub type_name : Bytes
  pub maximum_length : ℕ

pub record PreferencesSchema : Type 0 where
  pub maximum_bytes : ℕ
  pub fields : List (Bytes × PreferenceField)

pub record ClipboardItem : Type 0 where
  pub id : Bytes
  pub content : Bytes
  pub updated_at : Bytes

pub record ClipboardSnapshot : Type 0 where
  pub enabled : Bool
  pub items : List ClipboardItem

pub record DictionaryEntry : Type 0 where
  pub id : Bytes
  pub kind : Bytes
  pub code : Bytes
  pub word : Bytes
  pub weight : ℕ
  pub revision : ℕ
  pub updated_at : Bytes

pub record DictionaryPage : Type 0 where
  pub entries : List DictionaryEntry
  pub has_more : Bool
  pub offset : ℕ
  pub revision : ℕ

pub record DictionaryCatalogOptions : Type 0 where
  pub scheme : Bytes
  pub profile : Bytes

pub record DictionaryImportResult : Type 0 where
  pub imported : ℕ
  pub revision : ℕ

pub record DictionaryChange : Type 0 where
  pub revision : ℕ
  pub previous : Option DictionaryEntry
  pub replacement : Option DictionaryEntry

-- What a call throws: the client's `Failure`, or an exception of another kind.
pub data Error : Type 0 where
  failure : ℕ → Bool → Error
  other : ℕ → Error

-- A bit pattern of 64 bits is a NaN, and a zero of either sign.
unfoldable pub is_nan : ℕ → Bool
is_nan x = ltb 0x7ff0000000000000 (x % 2 ^ 63)

unfoldable pub is_zero : ℕ → Bool
is_zero x = x % 2 ^ 63 == 0

unfoldable pub same_double : ℕ → ℕ → Bool
unfolding is_nan is_zero
same_double a b = (a == b && not (is_nan a)) || (is_zero a && is_zero b)

unfoldable pub same_flag : Bool → Bool → Bool
same_flag true b = b
same_flag false b = not b

unfoldable pub same_value : PreferenceValue → PreferenceValue → Bool
unfolding same_flag same_double bytes_eq
same_value (PreferenceValue.flag a) (PreferenceValue.flag b) = same_flag a b
same_value (PreferenceValue.integer a) (PreferenceValue.integer b) = a == b
same_value (PreferenceValue.double a) (PreferenceValue.double b) = same_double a b
same_value (PreferenceValue.text a) (PreferenceValue.text b) = bytes_eq a b
same_value _ _ = false

-- `==` on two maps of settings.
unfoldable pub same_settings : Settings → Settings → Bool
unfolding same_value bytes_eq
same_settings [] [] = true
same_settings ((k, v) ∷ a) ((l, w) ∷ b) = bytes_eq k l && same_value v w && same_settings a b
same_settings [] (_ ∷ _) = false
same_settings (_ ∷ _) [] = false

-- The order of `std::string`: by bytes, and a proper prefix comes first.
unfoldable pub comes_before : Bytes → Bytes → Bool
comes_before a [] = false
comes_before [] (_ ∷ _) = true
comes_before (x ∷ a) (y ∷ b) = if x == y then comes_before a b else ltb x y

-- `settings[key] = value`.
unfoldable pub set_setting : Bytes → PreferenceValue → Settings → Settings
unfolding bytes_eq comes_before
set_setting key value [] = (key, value) ∷ []
set_setting key value ((k, v) ∷ rest) =
    let later = set_setting key value rest in
    if bytes_eq key k
    then (key, value) ∷ rest
    else if comes_before key k
    then (key, value) ∷ (k, v) ∷ rest
    else (k, v) ∷ later

-- The loop of `upload_preferences`: every local setting over the remote ones.
unfoldable pub merge_settings : Settings → Settings → Settings
unfolding set_setting
merge_settings remote [] = remote
merge_settings remote ((k, v) ∷ local) = merge_settings (set_setting k v remote) local
