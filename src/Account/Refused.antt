-- ===== src/Account/Refused.antt =====
-- Operations that come too late, and the end of a session whose token the account service refused
-- (src/account/AccountSession.cpp).
use msime_linux.Base.{ℕ, Option, none, some, Bool, true, false, not, ◌==◌, ◌≡◌, ap, Bytes, arith}
use msime_linux.Account.Types.{Error}
use msime_linux.Account.Monad.{
  threw, Nothing, Members, Op, Call, Cancellation, ◌>>=◌, after, cancelled_failure,
}
use msime_linux.Account.Session.{Services, require_generation, with_current_user, login, authorized}
use msime_linux.Account.Preferences.{
  PreferencesReview, profile, rename, reviewed_token, review_preferences, upload_preferences,
  apply_preferences,
}
use msime_linux.Account.Operations.{
  begin_link, link, logout, delete_account, with_token, clipboard, set_clipboard_enabled,
  add_clipboard, delete_clipboard, dictionary, dictionary_catalog, manage_dictionary,
  edit_dictionary, import_dictionary, import_han_dictionary, export_dictionary, download_snapshot,
  restore_snapshot,
}
use msime_linux.Account.Actions.{Action, ignore, perform}

-- The generation that an action was made for.
unfoldable pub generation_of : {W K B : Type 0} → Action W K B → Option ℕ
generation_of Action.restore = none
generation_of Action.snapshot = none
generation_of (Action.with_current_user g id operation) = some g
generation_of (Action.upload_preferences r l x) = some r.generation
generation_of (Action.apply_preferences r a x) = some r.generation
generation_of (Action.login g c d x) = some g
generation_of (Action.link g c d x) = some g
generation_of (Action.begin_link g p t x) = some g
generation_of (Action.access_token g x) = some g
generation_of (Action.profile g x) = some g
generation_of (Action.review_preferences g x) = some g
generation_of (Action.delete_account g x) = some g
generation_of (Action.rename g n x) = some g
generation_of (Action.clipboard g q x) = some g
generation_of (Action.add_clipboard g t x) = some g
generation_of (Action.delete_clipboard g i x) = some g
generation_of (Action.set_clipboard_enabled g e x) = some g
generation_of (Action.logout g e x) = some g
generation_of (Action.dictionary g k q o l x) = some g
generation_of (Action.dictionary_catalog g k q o l x s) = some g
generation_of (Action.manage_dictionary g k r p n x) = some g
generation_of (Action.edit_dictionary g k i r n x) = some g
generation_of (Action.import_dictionary g k t f x) = some g
generation_of (Action.import_han_dictionary g t w x) = some g
generation_of (Action.export_dictionary g k f x) = some g
generation_of (Action.download_snapshot g s x) = some g
generation_of (Action.restore_snapshot g n s r x) = some g

unfoldable pub is_late : Option ℕ → ℕ → Bool
is_late none now = false
is_late (some g) now = not (g == now)

module _ {W : Type 0} where
  generation_refused :
      (g : ℕ) (m : Members W)
      → is_late (some g) m.generation ≡ true
      → require_generation g m ≡ (threw cancelled_failure, m)
  unfolding is_late require_generation
  generation_refused g m h = ground arith

  bind_refused :
      {A B : Type 0}
      → (op : Op W A) (f : A → Op W B) (m m' : Members W) (e : Error) → op m ≡ (threw e, m')
      → (op >>= f) m ≡ (threw e, m')
  unfolding ◌>>=◌ after
  bind_refused op f m m' e h = ap (after f) h

  current_user_refused :
      (g : ℕ) (id : Bytes) (operation : Call W Nothing) (m : Members W)
      → is_late (some g) m.generation ≡ true
      → with_current_user g id operation m ≡ (threw cancelled_failure, m)
  unfolding with_current_user
  current_user_refused g id operation m h = bind_refused _ _ m m _ (generation_refused g m h)

module _ {W K B : Type 0} (V : Services W K B) where
  authorized_refused :
      (g : ℕ) (x : Cancellation W) (m : Members W)
      → is_late (some g) m.generation ≡ true
      → authorized V g x m ≡ (threw cancelled_failure, m)
  unfolding authorized
  authorized_refused g x m h = bind_refused _ _ m m _ (generation_refused g m h)

  token_refused :
      {A : Type 0}
      → (g : ℕ) (x : Cancellation W) (f : Bytes → Op W A) (m : Members W)
      → is_late (some g) m.generation ≡ true
      → ignore (authorized V g x >>= f) m ≡ (threw cancelled_failure, m)
  unfolding ignore
  token_refused g x f m h =
      bind_refused _ _ m m _ (bind_refused _ f m m _ (authorized_refused g x m h))

  review_refused :
      {A : Type 0}
      → (r : PreferencesReview) (x : Cancellation W) (f : Bytes → Op W A) (m : Members W)
      → is_late (some r.generation) m.generation ≡ true
      → ignore (reviewed_token V r x >>= f) m ≡ (threw cancelled_failure, m)
  unfolding ignore reviewed_token
  review_refused r x f m h =
      bind_refused _ _ m m _
        (bind_refused _ f m m _ (bind_refused _ _ m m _ (generation_refused r.generation m h)))

  login_refused :
      (g : ℕ) (c d : Bytes) (x : Cancellation W) (m : Members W)
      → is_late (some g) m.generation ≡ true
      → login V g c d x m ≡ (threw cancelled_failure, m)
  unfolding login
  login_refused g c d x m h = bind_refused _ _ m m _ (generation_refused g m h)

  -- A call of a public method that was made for another generation than the present one throws the
  -- cancelled failure, and that is all: no member changes, and neither the account service nor the
  -- keyring nor the clock is asked.
  pub late_action_refused :
      (a : Action W K B) (m : Members W)
      → is_late (generation_of a) m.generation ≡ true
      → perform V a m ≡ (threw cancelled_failure, m)
  unfolding generation_of is_late ignore perform with_token link begin_link profile
      review_preferences delete_account rename clipboard add_clipboard delete_clipboard
      set_clipboard_enabled logout dictionary dictionary_catalog manage_dictionary edit_dictionary
      import_dictionary import_han_dictionary export_dictionary download_snapshot restore_snapshot
      upload_preferences apply_preferences
  late_action_refused Action.restore m h = absurd (cc h)
  late_action_refused Action.snapshot m h = absurd (cc h)
  late_action_refused (Action.with_current_user g id operation) m h =
      bind_refused _ _ m m _ (current_user_refused g id operation m h)
  late_action_refused (Action.upload_preferences r l x) m h = review_refused r x _ m h
  late_action_refused (Action.apply_preferences r a x) m h = review_refused r x _ m h
  late_action_refused (Action.login g c d x) m h =
      bind_refused _ _ m m _ (login_refused g c d x m h)
  late_action_refused (Action.link g c d x) m h = token_refused g x _ m h
  late_action_refused (Action.begin_link g p t x) m h = token_refused g x _ m h
  late_action_refused (Action.access_token g x) m h =
      bind_refused _ _ m m _ (authorized_refused g x m h)
  late_action_refused (Action.profile g x) m h = token_refused g x _ m h
  late_action_refused (Action.review_preferences g x) m h = token_refused g x _ m h
  late_action_refused (Action.delete_account g x) m h = token_refused g x _ m h
  late_action_refused (Action.rename g n x) m h = token_refused g x _ m h
  late_action_refused (Action.clipboard g q x) m h = token_refused g x _ m h
  late_action_refused (Action.add_clipboard g t x) m h = token_refused g x _ m h
  late_action_refused (Action.delete_clipboard g i x) m h = token_refused g x _ m h
  late_action_refused (Action.set_clipboard_enabled g e x) m h = token_refused g x _ m h
  late_action_refused (Action.logout g e x) m h = token_refused g x _ m h
  late_action_refused (Action.dictionary g k q o l x) m h = token_refused g x _ m h
  late_action_refused (Action.dictionary_catalog g k q o l x s) m h = token_refused g x _ m h
  late_action_refused (Action.manage_dictionary g k r p n x) m h = token_refused g x _ m h
  late_action_refused (Action.edit_dictionary g k i r n x) m h = token_refused g x _ m h
  late_action_refused (Action.import_dictionary g k t f x) m h = token_refused g x _ m h
  late_action_refused (Action.import_han_dictionary g t w x) m h = token_refused g x _ m h
  late_action_refused (Action.export_dictionary g k f x) m h = token_refused g x _ m h
  late_action_refused (Action.download_snapshot g s x) m h = token_refused g x _ m h
  late_action_refused (Action.restore_snapshot g n s r x) m h = token_refused g x _ m h
