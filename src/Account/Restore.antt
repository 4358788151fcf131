-- ===== src/Account/Restore.antt =====
-- Restoring the saved session (`restore` of src/account/AccountSession.cpp).
use msime_linux.Base.{ℕ, Option, Bool, true, false, ◌≡◌, refl, ◌∙◌, sym, ap, subst, if◌then◌else◌}
use msime_linux.Account.Types.{SavedSession, Error}
use msime_linux.Account.Monad.{
  Reply, done, threw, nothing, Members, ◌>>=◌, after, get, give, outside,
}
use msime_linux.Account.Meets.{Meets, Fixed, Fixed-refl, bind-Meets, weaken-Meets, outside-Meets}
use msime_linux.Account.Session.{
  Services, SessionSnapshot, next_generation, user_of, current, replace, mark_restored,
  load_session, restore,
}

module _ {W : Type 0} where
  -- What is reported of some members.
  unfoldable pub Reported : SessionSnapshot → Members W → Type 0
  Reported s m =
      (m.restored ≡ true) × (s ≡ record { generation = m.generation; user = user_of m.session })

  -- A failed lookup leaves every member as it was, and `restored_` unset.
  unfoldable pub Unrestored : Members W → Members W → Type 0
  Unrestored o m = Fixed o m × (m.restored ≡ false)

  current-Meets :
      (F : Members W → Type 0) (m : Members W) → m.restored ≡ true → Meets Reported F (current m)
  unfolding Meets current Reported
  current-Meets F m h = (h, refl)

  Restored : Members W → Type 0
  Restored m = m.restored ≡ true

  mark_restored-Meets :
      (F : Members W → Type 0) (m : Members W) → Meets (λ a m'. Restored m') F (mark_restored m)
  unfolding Meets mark_restored Restored
  mark_restored-Meets F m = refl

  any_replace-Meets :
      (F : Members W → Type 0) (s : Option SavedSession) (m : Members W)
      → Meets (λ a m'. m' ≡ (replace s m).1) F (replace s m)
  unfolding Meets replace
  any_replace-Meets F s m = refl

  already-Meets :
      (F : Members W → Type 0) (m : Members W)
      → m.restored ≡ true
      → Meets (λ a m'. Restored m') F (give nothing m)
  unfolding Meets give Restored
  already-Meets F m h = h

  -- What `restore` comes to when the keyring gives `s`.
  found_in_keyring : (s : Option SavedSession) (w : W) (g : ℕ) → Reply SessionSnapshot × Members W
  found_in_keyring s w g = (
    done (record { generation = next_generation g; user = user_of s }),
    record { restored = true; generation = next_generation g; session = s; world = w },
  )

module _ {W K B : Type 0} (V : Services W K B) where
  load-Meets :
      (m : Members W)
      → m.restored ≡ false
      → Meets (λ a m'. Restored m') (Unrestored m) (load_session V m)
  unfolding load_session Unrestored Fixed
  load-Meets m h =
      bind-Meets (λ s m'. Fixed m m') _ (Unrestored m) _ _ m
        (weaken-Meets _ _ _ _ _ (outside-Meets m m V.load (Fixed-refl m)) (λ s m' k. k)
          (λ m' k. (k, k.0 ∙ h)))
        (λ s m1 h1.
          bind-Meets _ _ (Unrestored m) _ _ m1 (any_replace-Meets _ s m1)
            (λ a m2 h2. mark_restored-Meets _ m2))

  restore_if-Meets :
      (m : Members W) (b : Bool)
      → m.restored ≡ b
      → Meets (λ a m'. Restored m') (Unrestored m) ((if b then give nothing else load_session V) m)
  restore_if-Meets m true h = already-Meets _ m h
  restore_if-Meets m false h = load-Meets m h

  restore_eq :
      (m : Members W)
      → restore V m ≡ ((if m.restored then give nothing else load_session V) >>= (λ a. current)) m
  unfolding restore get ◌>>=◌ after
  restore_eq m = refl

  restore-Meets : (m : Members W) → Meets Reported (Unrestored m) (restore V m)
  unfolding Restored
  restore-Meets m = subst (Meets Reported (Unrestored m)) (sym (restore_eq m)) (
      bind-Meets (λ a m'. Restored m') Reported (Unrestored m) _ _ m
        (restore_if-Meets m m.restored refl) (λ a m' h. current-Meets _ m' h))

  already_restored :
      (b : Bool) (m : Members W)
      → b ≡ true
      → ((if b then give nothing else load_session V) >>= (λ a. current)) m
        ≡ (done (record { generation = m.generation; user = user_of m.session }), m)
  unfolding ◌>>=◌ after give current
  already_restored true m h = refl
  already_restored false m h = absurd (cc h)

  load_now :
      (b : Bool) (m : Members W) (s : Option SavedSession) (w : W)
      → b ≡ false
      → V.load m.world ≡ (done s, w)
      → ((if b then give nothing else load_session V) >>= (λ a. current)) m
        ≡ found_in_keyring s w m.generation
  unfolding ◌>>=◌ after give current load_session outside replace mark_restored found_in_keyring
  load_now true m s w h k = absurd (cc h)
  load_now false m s w h k = rw k refl

  restore_again : (s : SessionSnapshot) (m : Members W) → Reported s m → restore V m ≡ (done s, m)
  unfolding Reported
  restore_again s m (h, e) =
      restore_eq m ∙ already_restored m.restored m h ∙ ap (λ x. (done x, m)) (sym e)

  -- Restoring is done once: where `restore` has returned, a further call returns the same snapshot
  -- and changes nothing, and the keyring is not asked again.
  pub restore-restore :
      (m m' : Members W) (s : SessionSnapshot)
      → restore V m ≡ (done s, m')
      → restore V m' ≡ (done s, m')
  unfolding Meets
  restore-restore m m' s h =
      restore_again s m' (subst (Meets Reported (Unrestored m)) h (restore-Meets m))

  -- A failed lookup does not sign out: where `restore` throws, the session and the generation are as
  -- before and still count as not restored. So a later `restore` asks the keyring again: if it then
  -- gives `s`, the session becomes `s` under the next generation.
  pub restore_retry :
      (m m' : Members W) (e : Error) (s : Option SavedSession) (w : W)
      → restore V m ≡ (threw e, m')
      → V.load m'.world ≡ (done s, w)
      → (m'.session ≡ m.session)
        × (m'.generation ≡ m.generation)
        × (m'.restored ≡ false)
        × (restore V m' ≡ (
          done (record { generation = next_generation m.generation; user = user_of s }),
          record {
            restored = true;
            generation = next_generation m.generation;
            session = s;
            world = w;
          },
        ))
  unfolding Meets Unrestored Fixed found_in_keyring
  restore_retry m m' e s w h k =
      let (fixed, r) = subst (Meets Reported (Unrestored m)) h (restore-Meets m) in
      (
        fixed.2,
        fixed.1,
        r,
        restore_eq m' ∙ load_now m'.restored m' s w r k ∙ ap (λ g. found_in_keyring s w g) fixed.1,
      )
