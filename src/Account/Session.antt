-- ===== src/Account/Session.antt =====
-- The session's own operations (src/account/AccountSession.cpp): restoring, signing in and out,
-- and the access token that every other operation asks for. The account service, the keyring and
-- the clock are the interface `Services`, since the code behind them is a network and a daemon.
use msime_linux.Base.{
  ℕ, ◌+◌, ◌%◌, ◌^◌, Bool, true, false, not, ◌&&◌, ◌||◌, Option, none, some, [], Bytes, bytes_eq,
  leb, ◌==◌, if◌then◌else◌,
}
use msime_linux.Account.Types.{
  User, Tokens, SavedSession, Challenge, Profile, Preferences, PreferencesSchema, ClipboardItem,
  ClipboardSnapshot, DictionaryEntry, DictionaryPage, DictionaryCatalogOptions,
  DictionaryImportResult, DictionaryChange, failure, other,
}
use msime_linux.Account.Monad.{
  Reply, done, threw, Nothing, nothing, Members, Op, Call, Cancellation, ◌>>=◌, give, throw,
  require, get, outside, cancelled_failure,
}

-- `BackendAccountClient`, `AccountCredentialStore` and the clock, as the session calls them.
-- `K` and `B` are the callbacks that take and give the bytes of a snapshot. A clock reading is in
-- seconds; a reading before the epoch counts as 0, and both are refused.
pub record Services (W K B : Type 0) : Type 0 where
  pub clock : Call W ℕ
  pub load : Call W (Option SavedSession)
  pub save : SavedSession → Call W Nothing
  pub clear : Call W Nothing
  pub challenge : Bytes → Bytes → Bytes → Cancellation W → Call W Challenge
  pub login : Bytes → Bytes → Bytes → Cancellation W → Call W Tokens
  pub refresh : Bytes → Cancellation W → Call W Tokens
  pub profile : Bytes → Cancellation W → Call W Profile
  pub rename : Bytes → Bytes → Cancellation W → Call W Nothing
  pub preferences : Bytes → Cancellation W → Call W Preferences
  pub preferences_schema : Bytes → Cancellation W → Call W PreferencesSchema
  pub put_preferences :
      Preferences → PreferencesSchema → Bytes → Cancellation W → Call W Preferences
  pub clipboard : Bytes → Bytes → Cancellation W → Call W ClipboardSnapshot
  pub set_clipboard_enabled : Bool → Bytes → Cancellation W → Call W Nothing
  pub add_clipboard : Bytes → Bytes → Cancellation W → Call W ClipboardItem
  pub delete_clipboard : Bytes → Bytes → Cancellation W → Call W Nothing
  pub dictionary : Bytes → Bytes → ℕ → ℕ → Bytes → Cancellation W → Call W DictionaryPage
  pub dictionary_catalog :
      Bytes
      → Bytes
      → ℕ
      → ℕ
      → Bytes
      → Cancellation W
      → DictionaryCatalogOptions
      → Call W DictionaryPage
  pub manage_dictionary :
      Bytes
      → ℕ
      → DictionaryEntry
      → Option DictionaryEntry
      → Bytes
      → Cancellation W
      → Call W DictionaryChange
  pub edit_dictionary :
      Bytes → Bytes → ℕ → Option DictionaryEntry → Bytes → Cancellation W → Call W DictionaryChange
  pub import_dictionary :
      Bytes → Bytes → Bytes → Bytes → Cancellation W → Call W DictionaryImportResult
  pub import_han_dictionary : Bytes → ℕ → Bytes → Cancellation W → Call W DictionaryImportResult
  pub export_dictionary : Bytes → Bytes → Bytes → Cancellation W → Call W Bytes
  pub download_snapshot : K → Bytes → Cancellation W → Call W Nothing
  pub restore_snapshot : ℕ → B → ℕ → Bytes → Cancellation W → Call W ℕ
  pub logout : Bytes → Bool → Cancellation W → Call W Nothing
  pub delete_account : Bytes → Cancellation W → Call W Nothing

pub record SessionSnapshot : Type 0 where
  pub generation : ℕ
  pub user : Option User

unfoldable pub user_of : Option SavedSession → Option User
user_of none = none
user_of (some s) = some s.tokens.user

-- `now <= 0 || now > 253402214399` refuses the clock.
unfoldable pub clock_is_valid : ℕ → Bool
clock_is_valid now = not (now == 0) && leb now 253402214399

-- `++generation_` on 64 bits.
unfoldable pub next_generation : ℕ → ℕ
next_generation g = (g + 1) % 2 ^ 64

unfoldable pub same_user : Option SavedSession → Bytes → Bool
same_user none id = false
same_user (some s) id = bytes_eq s.tokens.user.id id

module _ {W : Type 0} where
  unfoldable pub current : Op W SessionSnapshot
  current m = (done (record { generation = m.generation; user = user_of m.session }), m)

  unfoldable pub require_generation : ℕ → Op W Nothing
  require_generation generation m =
      if not m.restored || not (generation == m.generation)
      then (threw cancelled_failure, m)
      else (done nothing, m)

  -- `if (cancelled && cancelled()) throw Failure(0, true);`
  unfoldable pub check_cancelled : Cancellation W → Op W Nothing
  check_cancelled none m = (done nothing, m)
  check_cancelled (some test) m =
      if test m.world then (threw cancelled_failure, m) else (done nothing, m)

  -- `if (!session_) throw Failure(401);`
  unfoldable pub found : Option SavedSession → Op W SavedSession
  found none m = (threw (failure 401 false), m)
  found (some s) m = (done s, m)

  unfoldable pub signed_in : Op W SavedSession
  signed_in m = found m.session m

  -- `session_ = next`, and with `++generation_`.
  unfoldable pub hold : SavedSession → Op W Nothing
  hold s m = (done nothing, record m { session = some s })

  unfoldable pub replace : Option SavedSession → Op W Nothing
  replace s m = (done nothing, record m { session = s; generation = next_generation m.generation })

  unfoldable pub mark_restored : Op W Nothing
  mark_restored m = (done nothing, record m { restored = true })

  unfoldable pub with_current_user : ℕ → Bytes → Call W Nothing → Op W Nothing
  with_current_user generation id operation = do
    _ ← require_generation generation
    m ← get
    _ ← require cancelled_failure (same_user m.session id)
    outside operation

module _ {W K B : Type 0} (V : Services W K B) where
  -- The clock, checked.
  unfoldable pub read_clock : Op W ℕ
  read_clock = do
    now ← outside V.clock
    _ ← require (failure 0 false) (clock_is_valid now)
    give now

  -- `expires_in` is an `int` that the client accepts only from 1 to 86400, and a valid clock
  -- reading is below 2^38: the sum stays far below the bound of `std::int64_t`.
  unfoldable pub saved : Tokens → Op W SavedSession
  saved tokens = do
    now ← read_clock
    give (record { tokens = tokens; expires_at = now + tokens.expires_in })

  -- The part of `restore` under its test.
  unfoldable pub load_session : Op W Nothing
  load_session = do s ← outside V.load; _ ← replace s; mark_restored

  unfoldable pub restore : Op W SessionSnapshot
  restore = do m ← get; _ ← if m.restored then give nothing else load_session; current

  unfoldable pub login : ℕ → Bytes → Bytes → Cancellation W → Op W SessionSnapshot
  login generation challenge credential cancelled = do
    _ ← require_generation generation
    tokens ← outside (V.login challenge credential [] cancelled)
    next ← saved tokens
    _ ← outside (V.save next)
    _ ← replace (some next)
    current

  -- The session goes before the keyring is asked, so it is gone when the keyring refuses too.
  unfoldable pub discard : Op W Nothing
  discard = do _ ← replace none; outside V.clear

  -- `catch (const Failure &error)`: a refused token ends the session, and the failure is thrown on.
  -- An exception of `discard` takes the place of the failure.
  unfoldable pub on_failure : {A : Type 0} → Reply A × Members W → Reply A × Members W
  on_failure (done a, m) = (done a, m)
  on_failure (threw (other n), m) = (threw (other n), m)
  on_failure (threw (failure status stopped), m) =
      if status == 401
      then (discard >>= (λ _. throw (failure status stopped))) m
      else (threw (failure status stopped), m)

  unfoldable pub guarded : {A : Type 0} → Op W A → Op W A
  guarded op m = on_failure (op m)

  -- The part of `authorized` for a token that is about to expire.
  unfoldable pub refresh_session : SavedSession → Cancellation W → Op W Nothing
  refresh_session s cancelled = do
    refreshed ← guarded (outside (V.refresh s.tokens.refresh_token cancelled))
    _ ← require (failure 0 false) (bytes_eq refreshed.user.id s.tokens.user.id)
    next ← saved refreshed
    _ ← outside (V.save next)
    hold next

  unfoldable pub authorized : ℕ → Cancellation W → Op W Bytes
  authorized generation cancelled = do
    _ ← require_generation generation
    _ ← check_cancelled cancelled
    s ← signed_in
    now ← read_clock
    _ ← if leb s.expires_at (now + 60) then refresh_session s cancelled else give nothing
    s' ← signed_in
    give s'.tokens.access_token
