-- ===== src/Account/Actions.antt =====
-- The public methods of src/account/AccountSession.h as one type of actions, and a run of them.
use msime_linux.Base.{ℕ, Bool, Option, List, [], ◌∷◌, Bytes}
use msime_linux.Account.Types.{DictionaryEntry, DictionaryCatalogOptions, Settings}
use msime_linux.Account.Monad.{Nothing, nothing, Members, Op, Call, Cancellation, ◌>>=◌, give}
use msime_linux.Account.Session
use msime_linux.Account.Session.{Services}
use msime_linux.Account.Preferences
use msime_linux.Account.Preferences.{PreferencesReview}
use msime_linux.Account.Operations

pub data Action (W K B : Type 0) : Type 0 where
  restore snapshot : Action W K B
  with_current_user : ℕ → Bytes → Call W Nothing → Action W K B
  login begin_link link : ℕ → Bytes → Bytes → Cancellation W → Action W K B
  access_token profile review_preferences delete_account : ℕ → Cancellation W → Action W K B
  rename clipboard add_clipboard delete_clipboard : ℕ → Bytes → Cancellation W → Action W K B
  upload_preferences : PreferencesReview → Settings → Cancellation W → Action W K B
  apply_preferences : PreferencesReview → Call W Nothing → Cancellation W → Action W K B
  set_clipboard_enabled logout : ℕ → Bool → Cancellation W → Action W K B
  dictionary : ℕ → Bytes → Bytes → ℕ → ℕ → Cancellation W → Action W K B
  dictionary_catalog :
      ℕ → Bytes → Bytes → ℕ → ℕ → Cancellation W → DictionaryCatalogOptions → Action W K B
  manage_dictionary :
      ℕ → Bytes → ℕ → DictionaryEntry → Option DictionaryEntry → Cancellation W → Action W K B
  edit_dictionary : ℕ → Bytes → Bytes → ℕ → Option DictionaryEntry → Cancellation W → Action W K B
  import_dictionary : ℕ → Bytes → Bytes → Bytes → Cancellation W → Action W K B
  import_han_dictionary : ℕ → Bytes → ℕ → Cancellation W → Action W K B
  export_dictionary : ℕ → Bytes → Bytes → Cancellation W → Action W K B
  download_snapshot : ℕ → K → Cancellation W → Action W K B
  restore_snapshot : ℕ → ℕ → B → ℕ → Cancellation W → Action W K B

module _ {W : Type 0} where
  -- An operation whose result nobody reads.
  unfoldable pub ignore : {A : Type 0} → Op W A → Op W Nothing
  ignore op = op >>= (λ a. give nothing)

module _ {W K B : Type 0} (V : Services W K B) where
  unfoldable pub perform : Action W K B → Op W Nothing
  perform Action.restore = ignore (Session.restore V)
  perform Action.snapshot = ignore Session.current
  perform (Action.with_current_user g id operation) =
      ignore (Session.with_current_user g id operation)
  perform (Action.login g c d x) = ignore (Session.login V g c d x)
  perform (Action.begin_link g p t x) = ignore (Operations.begin_link V g p t x)
  perform (Action.link g c d x) = ignore (Operations.link V g c d x)
  perform (Action.access_token g x) = ignore (Session.authorized V g x)
  perform (Action.profile g x) = ignore (Preferences.profile V g x)
  perform (Action.review_preferences g x) = ignore (Preferences.review_preferences V g x)
  perform (Action.delete_account g x) = ignore (Operations.delete_account V g x)
  perform (Action.rename g n x) = ignore (Preferences.rename V g n x)
  perform (Action.clipboard g q x) = ignore (Operations.clipboard V g q x)
  perform (Action.add_clipboard g t x) = ignore (Operations.add_clipboard V g t x)
  perform (Action.delete_clipboard g i x) = ignore (Operations.delete_clipboard V g i x)
  perform (Action.upload_preferences r l x) = ignore (Preferences.upload_preferences V r l x)
  perform (Action.apply_preferences r a x) = ignore (Preferences.apply_preferences V r a x)
  perform (Action.set_clipboard_enabled g e x) = ignore (Operations.set_clipboard_enabled V g e x)
  perform (Action.logout g e x) = ignore (Operations.logout V g e x)
  perform (Action.dictionary g k q o l x) = ignore (Operations.dictionary V g k q o l x)
  perform (Action.dictionary_catalog g k q o l x s) =
      ignore (Operations.dictionary_catalog V g k q o l x s)
  perform (Action.manage_dictionary g k r p n x) =
      ignore (Operations.manage_dictionary V g k r p n x)
  perform (Action.edit_dictionary g k i r n x) = ignore (Operations.edit_dictionary V g k i r n x)
  perform (Action.import_dictionary g k t f x) = ignore (Operations.import_dictionary V g k t f x)
  perform (Action.import_han_dictionary g t w x) =
      ignore (Operations.import_han_dictionary V g t w x)
  perform (Action.export_dictionary g k f x) = ignore (Operations.export_dictionary V g k f x)
  perform (Action.download_snapshot g s x) = ignore (Operations.download_snapshot V g s x)
  perform (Action.restore_snapshot g n s r x) = ignore (Operations.restore_snapshot V g n s r x)

  -- The members after some actions, whether or not they threw.
  unfoldable pub run : List (Action W K B) → Members W → Members W
  run [] m = m
  run (a ∷ actions) m = run actions (perform a m).1
