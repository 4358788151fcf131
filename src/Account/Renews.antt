-- ===== src/Account/Renews.antt =====
-- The methods of src/account/AccountSession.cpp that sign in or out, and those that check a review
-- of the settings first.
use msime_linux.Base.{
  ℕ, Bool, true, false, Option, some, Bytes, ◌≡◌, refl, sym, ap, subst, inr, if◌then◌else◌,
}
use msime_linux.Account.Types.{SavedSession}
use msime_linux.Account.Monad.{Nothing, nothing, Members, Call, Cancellation, ◌>>=◌, give, get}
use msime_linux.Account.Session.{
  Services, next_generation, current, replace, mark_restored, with_current_user, load_session,
  restore, login, discard,
}
use msime_linux.Account.Operations.{link, logout, delete_account}
use msime_linux.Account.Meets.{
  Meets, Moved, Fixed, weaken-Meets, Fixed-refl, Fixed-Same, Fixed-Moved, outside-Meets,
  require-Meets, generation-Meets, signed_in-Meets,
}
use msime_linux.Account.Access.{Gone, discard-Gone, saved-Meets}
use msime_linux.Account.Keeps.{
  Safe, bind-Safe, authorized-Safe, later-Safe, give-Safe, outside-Safe, current-Safe, calmly,
}

module _ {W : Type 0} where
  -- The members under the next generation.
  unfoldable pub Renewed : Members W → Members W → Type 0
  Renewed o m = m.generation ≡ next_generation o.generation

  Renewed-Moved : (o m : Members W) → Renewed o m → Moved o m
  unfolding Renewed Moved
  Renewed-Moved o m h = inr h

  replace-Meets :
      (o m : Members W) (s : Option SavedSession)
      → Fixed o m
      → Meets (λ a m'. Renewed o m') (Moved o) (replace s m)
  unfolding Meets replace Renewed Fixed
  replace-Meets o m s h = ap next_generation h.1

  mark-Meets : (o m : Members W) → Renewed o m → Safe o (mark_restored m)
  unfolding Meets mark_restored Renewed Safe Moved
  mark-Meets o m h = inr h

  pub get-Meets :
      (P : Members W → Members W → Type 0) (F : Members W → Type 0) (m : Members W)
      → P m m
      → Meets P F (get m)
  unfolding Meets get
  get-Meets P F m h = h

  renewal-Safe :
      (o m : Members W) (s : SavedSession)
      → Fixed o m
      → Safe o ((replace (some s) >>= (λ a. current)) m)
  renewal-Safe o m s h =
      bind-Safe (λ a m'. Renewed o m') o _ _ m (replace-Meets o m (some s) h)
        (λ a m' r. current-Safe o m' (Renewed-Moved o m' r))

  pub with_current_user-Safe :
      (generation : ℕ) (id : Bytes) (operation : Call W Nothing) (m : Members W)
      → Safe m (with_current_user generation id operation m)
  unfolding with_current_user
  with_current_user-Safe generation id operation m =
      bind-Safe _ m _ _ m (calmly _ m _ (generation-Meets m m generation (Fixed-refl m)))
        (λ a m1 (h1, r, g).
          bind-Safe (λ x m'. Fixed m m') m _ _ m1 (get-Meets _ _ m1 h1)
            (λ x m2 h2.
              bind-Safe _ m _ _ m2 (calmly _ m _ (require-Meets m m2 _ _ h2)) (λ a m3 (h3, t).
                later-Safe m m3 _ (Fixed-Same m m3 h3) (outside-Safe m3 operation))))

module _ {W K B : Type 0} (V : Services W K B) where
  load-Safe : (m : Members W) → Safe m (load_session V m)
  unfolding load_session
  load-Safe m =
      bind-Safe (λ s m'. Fixed m m') m _ _ m
        (calmly _ m _ (outside-Meets m m V.load (Fixed-refl m)))
        (λ s m1 h1.
          bind-Safe (λ a m'. Renewed m m') m _ _ m1 (replace-Meets m m1 s h1)
            (λ a m2 h2. mark-Meets m m2 h2))

  maybe_load-Safe :
      (m : Members W) (b : Bool) → Safe m ((if b then give nothing else load_session V) m)
  maybe_load-Safe m true = give-Safe m m nothing (Fixed-Moved m m (Fixed-refl m))
  maybe_load-Safe m false = load-Safe m

  pub restore-Safe : (m : Members W) → Safe m (restore V m)
  unfolding restore Safe
  restore-Safe m =
      bind-Safe (λ x m'. m' ≡ m) m _ _ m (get-Meets _ _ m refl)
        (λ x m1 e.
          bind-Safe (λ a m'. Moved m m') m _ _ m1
            (subst (λ y. Safe m ((if x.restored then give nothing else load_session V) y)) (sym e)
              (maybe_load-Safe m x.restored))
            (λ a m2 h. current-Safe m m2 h))

  pub login-Safe :
      (generation : ℕ) (c d : Bytes) (cancelled : Cancellation W) (m : Members W)
      → Safe m (login V generation c d cancelled m)
  unfolding login
  login-Safe generation c d cancelled m =
      bind-Safe _ m _ _ m (calmly _ m _ (generation-Meets m m generation (Fixed-refl m)))
        (λ a m1 (h1, r, g).
          bind-Safe (λ t m'. Fixed m m') m _ _ m1 (calmly _ m _ (outside-Meets m m1 _ h1))
            (λ t m2 h2.
              bind-Safe _ m _ _ m2 (calmly _ m _ (saved-Meets V m m2 t h2)) (λ n m3 (h3, f).
                bind-Safe (λ a m'. Fixed m m') m _ _ m3 (calmly _ m _ (outside-Meets m m3 _ h3))
                  (λ a m4 h4. renewal-Safe m m4 n h4))))

  pub link-Safe :
      (generation : ℕ) (c d : Bytes) (cancelled : Cancellation W) (m : Members W)
      → Safe m (link V generation c d cancelled m)
  unfolding link
  link-Safe generation c d cancelled o = authorized-Safe V generation cancelled _ o (λ token m held.
      bind-Safe (λ t m'. Fixed m m') m _ _ m (calmly _ m _ (outside-Meets m m _ (Fixed-refl m)))
        (λ t m2 h2. bind-Safe _ m _ _ m2 (calmly _ m _ (saved-Meets V m m2 t h2)) (λ n m3 (h3, f).
          bind-Safe _ m _ _ m3 (calmly _ m _ (signed_in-Meets m m3 h3)) (λ s m4 (h4, e).
            bind-Safe _ m _ _ m4 (calmly _ m _ (require-Meets m m4 _ _ h4)) (λ a m5 (h5, t').
              bind-Safe (λ a m'. Fixed m m') m _ _ m5 (calmly _ m _ (outside-Meets m m5 _ h5))
                (λ a m6 h6. renewal-Safe m m6 n h6))))))

  discard-Safe : (o m : Members W) → Fixed o m → Safe o (discard V m)
  unfolding Safe Gone Moved Fixed
  discard-Safe o m h =
      weaken-Meets _ _ _ _ _ (discard-Gone V o m h.1) (λ a m' g. inr g.1) (λ m' g. inr g.1)

  pub logout-Safe :
      (generation : ℕ) (everywhere : Bool) (cancelled : Cancellation W) (m : Members W)
      → Safe m (logout V generation everywhere cancelled m)
  unfolding logout
  logout-Safe generation everywhere cancelled o =
      authorized-Safe V generation cancelled _ o (λ token m held.
        bind-Safe (λ t m'. Fixed m m') m _ _ m (calmly _ m _ (outside-Meets m m _ (Fixed-refl m)))
          (λ t m2 h2. discard-Safe m m2 h2))

  pub delete_account-Safe :
      (generation : ℕ) (cancelled : Cancellation W) (m : Members W)
      → Safe m (delete_account V generation cancelled m)
  unfolding delete_account
  delete_account-Safe generation cancelled o =
      authorized-Safe V generation cancelled _ o (λ token m held.
        bind-Safe (λ t m'. Fixed m m') m _ _ m (calmly _ m _ (outside-Meets m m _ (Fixed-refl m)))
          (λ t m2 h2. discard-Safe m m2 h2))
