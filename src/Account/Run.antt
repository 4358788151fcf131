-- ===== src/Account/Run.antt =====
-- The account that a generation names, over any run of the methods of
-- src/account/AccountSession.cpp.
use msime_linux.Base.{
  ℕ, ◌+◌, ◌^◌, ◌≤◌, ◌<◌, List, [], ◌∷◌, length, ◌≡◌, refl, ◌∙◌, sym, ◌⊎◌, inl, inr, arith,
}
use msime_linux.Account.Monad.{Reply, done, threw, nothing, Members, Op, Cancellation}
use msime_linux.Account.Session.{Services, next_generation, authorized}
use msime_linux.Account.Operations.{
  clipboard, set_clipboard_enabled, add_clipboard, delete_clipboard, dictionary, dictionary_catalog,
  manage_dictionary, edit_dictionary, import_dictionary, import_han_dictionary, export_dictionary,
  download_snapshot, restore_snapshot,
}
use msime_linux.Account.Meets.{user_id, Meets, Same, Moved, Fixed-refl, Fixed-Moved, weaken-Meets}
use msime_linux.Account.Access.{Failed-Moved}
use msime_linux.Account.Granted.{Granted, authorized-Granted}
use msime_linux.Account.Keeps.{
  Safe, bind-Safe, give-Safe, current-Safe, call-Safe, two_calls-Safe, begin_link-Safe,
  profile-Safe, rename-Safe,
}
use msime_linux.Account.Renews.{
  with_current_user-Safe, restore-Safe, login-Safe, link-Safe, logout-Safe, delete_account-Safe,
}
use msime_linux.Account.Reviews.{
  review_preferences-Safe, upload_preferences-Safe, apply_preferences-Safe,
}
use msime_linux.Account.Actions.{Action, ignore, perform, run}

module _ {W : Type 0} where
  ignore-Safe : {A : Type 0} → (op : Op W A) (m : Members W) → Safe m (op m) → Safe m (ignore op m)
  unfolding ignore Safe
  ignore-Safe op m h =
      bind-Safe (λ a m'. Moved m m') m op _ m h (λ a m' k. give-Safe m m' nothing k)

  Safe-Moved : {A : Type 0} → (m : Members W) (r : Reply A × Members W) → Safe m r → Moved m r.1
  unfolding Safe Meets
  Safe-Moved m (done a, m') h = h
  Safe-Moved m (threw e, m') h = h

module _ {W K B : Type 0} (V : Services W K B) where
  token-Safe : (g : ℕ) (x : Cancellation W) (m : Members W) → Safe m (authorized V g x m)
  unfolding Safe Moved Granted
  token-Safe g x m =
      weaken-Meets _ _ _ _ _ (authorized-Granted V m m g x (Fixed-refl m))
        (λ a m' (r, e, same, s). inl same) (λ m' f. Failed-Moved m m' f)

  perform-Safe : (a : Action W K B) (m : Members W) → Safe m (perform V a m)
  unfolding perform clipboard set_clipboard_enabled add_clipboard delete_clipboard dictionary
      dictionary_catalog manage_dictionary edit_dictionary import_dictionary import_han_dictionary
      export_dictionary download_snapshot restore_snapshot
  perform-Safe Action.restore m = ignore-Safe _ m (restore-Safe V m)
  perform-Safe Action.snapshot m =
      ignore-Safe _ m (current-Safe m m (Fixed-Moved m m (Fixed-refl m)))
  perform-Safe (Action.with_current_user g id operation) m =
      ignore-Safe _ m (with_current_user-Safe g id operation m)
  perform-Safe (Action.login g c d x) m = ignore-Safe _ m (login-Safe V g c d x m)
  perform-Safe (Action.begin_link g p t x) m = ignore-Safe _ m (begin_link-Safe V g p t x m)
  perform-Safe (Action.link g c d x) m = ignore-Safe _ m (link-Safe V g c d x m)
  perform-Safe (Action.access_token g x) m = ignore-Safe _ m (token-Safe g x m)
  perform-Safe (Action.profile g x) m = ignore-Safe _ m (profile-Safe V g x m)
  perform-Safe (Action.review_preferences g x) m = ignore-Safe _ m (review_preferences-Safe V g x m)
  perform-Safe (Action.delete_account g x) m = ignore-Safe _ m (delete_account-Safe V g x m)
  perform-Safe (Action.rename g n x) m = ignore-Safe _ m (rename-Safe V g n x m)
  perform-Safe (Action.upload_preferences r l x) m =
      ignore-Safe _ m (upload_preferences-Safe V r l x m)
  perform-Safe (Action.apply_preferences r a x) m =
      ignore-Safe _ m (apply_preferences-Safe V r a x m)
  perform-Safe (Action.logout g e x) m = ignore-Safe _ m (logout-Safe V g e x m)
  perform-Safe (Action.set_clipboard_enabled g e x) m = ignore-Safe _ m (two_calls-Safe V g x _ _ m)
  perform-Safe (Action.add_clipboard g t x) m = ignore-Safe _ m (two_calls-Safe V g x _ _ m)
  perform-Safe (Action.delete_clipboard g i x) m = ignore-Safe _ m (two_calls-Safe V g x _ _ m)
  perform-Safe (Action.clipboard g q x) m = ignore-Safe _ m (call-Safe V g x _ m)
  perform-Safe (Action.dictionary g k q o l x) m = ignore-Safe _ m (call-Safe V g x _ m)
  perform-Safe (Action.dictionary_catalog g k q o l x s) m = ignore-Safe _ m (call-Safe V g x _ m)
  perform-Safe (Action.manage_dictionary g k r p n x) m = ignore-Safe _ m (call-Safe V g x _ m)
  perform-Safe (Action.edit_dictionary g k i r n x) m = ignore-Safe _ m (call-Safe V g x _ m)
  perform-Safe (Action.import_dictionary g k t f x) m = ignore-Safe _ m (call-Safe V g x _ m)
  perform-Safe (Action.import_han_dictionary g t w x) m = ignore-Safe _ m (call-Safe V g x _ m)
  perform-Safe (Action.export_dictionary g k f x) m = ignore-Safe _ m (call-Safe V g x _ m)
  perform-Safe (Action.download_snapshot g s x) m = ignore-Safe _ m (call-Safe V g x _ m)
  perform-Safe (Action.restore_snapshot g n s r x) m = ignore-Safe _ m (call-Safe V g x _ m)

  perform_steps :
      (a : Action W K B) (m : Members W)
      → m.generation + 1 < 2 ^ 64
      → Same m (perform V a m).1 ⊎ ((perform V a m).1.generation ≡ m.generation + 1)
  unfolding Moved next_generation
  perform_steps a m lt = elim (Safe-Moved m _ (perform-Safe a m)) [
    | inl same ↦ inl same
    | inr e ↦ inr (omega (arith, e, lt))
  ]

  -- The generation never goes down, and an action adds at most one.
  run_bound :
      (actions : List (Action W K B)) (m : Members W)
      → m.generation + length actions < 2 ^ 64
      → m.generation ≤ (run V actions m).generation
  unfolding run Same
  run_bound [] m lt = omega arith
  run_bound (a ∷ actions) m lt = elim (perform_steps a m (omega (arith, lt))) [
    | inl same ↦
        omega (arith, run_bound actions (perform V a m).1 (omega (arith, lt, same.1)), same.1)
    | inr e ↦ omega (arith, run_bound actions (perform V a m).1 (omega (arith, lt, e)), e)
  ]

  -- A generation names one account: over any sequence of calls of the public methods, whatever the
  -- account service, the keyring and the clock answer and whichever calls throw, if the generation
  -- is the same in the end, so is the account (the user's id, or that nobody is signed in). The
  -- condition: the 64-bit generation is not used up by that many calls.
  pub run_keeps_user :
      (actions : List (Action W K B)) (m : Members W)
      → m.generation + length actions < 2 ^ 64
      → (run V actions m).generation ≡ m.generation
      → user_id (run V actions m).session ≡ user_id m.session
  unfolding run Same
  run_keeps_user [] m lt e = refl
  run_keeps_user (a ∷ actions) m lt e = elim (perform_steps a m (omega (arith, lt))) [
    | inl same ↦
        run_keeps_user actions (perform V a m).1 (omega (arith, lt, same.1)) (e ∙ sym same.1)
        ∙ same.2
    | inr e' ↦
        absurd (omega (arith, e, e', run_bound actions (perform V a m).1 (omega (arith, lt, e'))))
  ]
