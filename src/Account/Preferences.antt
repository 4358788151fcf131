-- ===== src/Account/Preferences.antt =====
-- The profile and the settings of the account (src/account/AccountSession.cpp).
use msime_linux.Base.{ℕ, false, ◌&&◌, Bytes, bytes_eq, ◌==◌}
use msime_linux.Account.Types.{
  SavedSession, Profile, Preferences, PreferencesSchema, Settings, failure, same_settings,
  merge_settings,
}
use msime_linux.Account.Monad.{
  Nothing, Op, Call, Cancellation, ◌>>=◌, give, require, get, outside, cancelled_failure,
}
use msime_linux.Account.Session.{
  Services, require_generation, check_cancelled, signed_in, same_user, hold, guarded, authorized,
}

pub record PreferencesReview : Type 0 where
  pub generation : ℕ
  pub user_id : Bytes
  pub remote : Preferences
  pub schema : PreferencesSchema

module _ {W K B : Type 0} (V : Services W K B) where
  -- `session_->` is read where `authorized` has just returned, so the session is there.
  unfoldable pub read_profile : Bytes → Cancellation W → Op W Profile
  read_profile token cancelled = do
    profile ← guarded V (outside (V.profile token cancelled))
    s ← signed_in
    _ ← require (failure 0 false) (bytes_eq profile.user.id s.tokens.user.id)
    let next : SavedSession = record s { tokens = record s.tokens { user = profile.user } }
    _ ← outside (V.save next)
    _ ← hold next
    give profile

  unfoldable pub profile : ℕ → Cancellation W → Op W Profile
  profile generation cancelled = do
    token ← authorized V generation cancelled
    read_profile token cancelled

  unfoldable pub rename : ℕ → Bytes → Cancellation W → Op W Profile
  rename generation name cancelled = do
    token ← authorized V generation cancelled
    _ ← outside (V.rename name token cancelled)
    read_profile token cancelled

  unfoldable pub reviewed_token : PreferencesReview → Cancellation W → Op W Bytes
  reviewed_token review cancelled = do
    _ ← require_generation review.generation
    m ← get
    _ ← require cancelled_failure (same_user m.session review.user_id)
    authorized V review.generation cancelled

  -- The block that `review_preferences` tries.
  unfoldable pub fetch_preferences : Bytes → Cancellation W → Op W PreferencesReview
  fetch_preferences token cancelled = do
    schema ← outside (V.preferences_schema token cancelled)
    remote ← outside (V.preferences token cancelled)
    m ← get
    s ← signed_in
    give (record {
      generation = m.generation;
      user_id = s.tokens.user.id;
      remote = remote;
      schema = schema;
    })

  unfoldable pub review_preferences : ℕ → Cancellation W → Op W PreferencesReview
  review_preferences generation cancelled = do
    token ← authorized V generation cancelled
    guarded V (fetch_preferences token cancelled)

  -- What `upload_preferences` sends.
  unfoldable pub replacement : PreferencesReview → Settings → Preferences
  replacement review local = record review.remote {
    settings = merge_settings review.remote.settings local;
  }

  unfoldable pub upload_preferences :
      PreferencesReview → Settings → Cancellation W → Op W Preferences
  upload_preferences review local cancelled = do
    token ← reviewed_token review cancelled
    guarded V (outside (V.put_preferences (replacement review local) review.schema token cancelled))

  unfoldable pub apply_preferences :
      PreferencesReview → Call W Nothing → Cancellation W → Op W Nothing
  apply_preferences review apply cancelled = do
    token ← reviewed_token review cancelled
    current ← guarded V (outside (V.preferences token cancelled))
    _ ← require (failure 409 false) (
        current.revision == review.remote.revision
        && same_settings current.settings review.remote.settings)
    _ ← check_cancelled cancelled
    outside apply
