-- ===== src/Account/Reviews.antt =====
-- The methods of src/account/AccountSession.cpp that check a review of the settings first, and
-- all methods together.
use msime_linux.Base.{ℕ, Bytes}
use msime_linux.Account.Types.{Settings}
use msime_linux.Account.Monad.{Nothing, Members, Op, Call, Cancellation, ◌>>=◌}
use msime_linux.Account.Session.{Services}
use msime_linux.Account.Preferences.{
  PreferencesReview, reviewed_token, fetch_preferences, review_preferences, upload_preferences,
  apply_preferences,
}
use msime_linux.Account.Meets.{
  Meets, Fixed, bind-Meets, Fixed-refl, Fixed-Same, outside-Meets, require-Meets, generation-Meets,
  cancelled-Meets, signed_in-Meets,
}
use msime_linux.Account.Access.{Failed, quietly, guarded-Meets, give-Fixed}
use msime_linux.Account.Granted.{Granted, authorized-Granted}
use msime_linux.Account.Renews.{get-Meets}
use msime_linux.Account.Keeps.{
  Safe, bind-Safe, authorized-Safe, later-Safe, outside-Safe, guarded-Safe, calmly, loosely,
}

module _ {W K B : Type 0} (V : Services W K B) where
  reviewed-Meets :
      (review : PreferencesReview) (cancelled : Cancellation W) (m : Members W)
      → Meets
          (λ token m'. Granted m review.generation token m')
          (Failed m)
          (reviewed_token V review cancelled m)
  unfolding reviewed_token
  reviewed-Meets review cancelled m =
      bind-Meets _ _ (Failed m) _ _ m (quietly _ m _ (generation-Meets m m _ (Fixed-refl m)))
        (λ a m1 (h1, r, g).
          bind-Meets (λ x m'. Fixed m m') _ (Failed m) _ _ m1 (get-Meets _ _ m1 h1)
            (λ x m2 h2.
              bind-Meets _ _ (Failed m) _ _ m2 (quietly _ m _ (require-Meets m m2 _ _ h2))
                (λ a m3 (h3, t). authorized-Granted V m m3 review.generation cancelled h3)))

  reviewed-Safe :
      {A : Type 0}
      → (review : PreferencesReview) (cancelled : Cancellation W) (f : Bytes → Op W A)
        (m : Members W)
      → ((token : Bytes) (m' : Members W) → Safe m' (f token m'))
      → Safe m ((reviewed_token V review cancelled >>= f) m)
  unfolding Granted
  reviewed-Safe review cancelled f m h =
      bind-Safe (Granted m review.generation) m _ _ m
        (loosely _ m _ (reviewed-Meets review cancelled m))
        (λ token m' (r, g, same, s). later-Safe m m' _ same (h token m'))

  fetch-Meets :
      (token : Bytes) (cancelled : Cancellation W) (m : Members W)
      → Meets (λ r m'. Fixed m m') (Fixed m) (fetch_preferences V token cancelled m)
  unfolding fetch_preferences
  fetch-Meets token cancelled m =
      bind-Meets (λ x m'. Fixed m m') _ (Fixed m) _ _ m (outside-Meets m m _ (Fixed-refl m))
        (λ schema m1 h1.
          bind-Meets (λ x m'. Fixed m m') _ (Fixed m) _ _ m1 (outside-Meets m m1 _ h1)
            (λ remote m2 h2.
              bind-Meets (λ x m'. Fixed m m') _ (Fixed m) _ _ m2 (get-Meets _ _ m2 h2)
                (λ x m3 h3.
                  bind-Meets _ _ (Fixed m) _ _ m3 (signed_in-Meets m m3 h3)
                    (λ s m4 (h4, e). give-Fixed _ m m4 h4))))

  pub review_preferences-Safe :
      (generation : ℕ) (cancelled : Cancellation W) (m : Members W)
      → Safe m (review_preferences V generation cancelled m)
  unfolding review_preferences
  review_preferences-Safe generation cancelled m =
      authorized-Safe V generation cancelled _ m
        (λ token m' held. guarded-Safe V m' _ (fetch-Meets token cancelled m'))

  pub upload_preferences-Safe :
      (review : PreferencesReview) (local : Settings) (cancelled : Cancellation W) (m : Members W)
      → Safe m (upload_preferences V review local cancelled m)
  unfolding upload_preferences
  upload_preferences-Safe review local cancelled m =
      reviewed-Safe review cancelled _ m
        (λ token m'. guarded-Safe V m' _ (outside-Meets m' m' _ (Fixed-refl m')))

  pub apply_preferences-Safe :
      (review : PreferencesReview) (apply : Call W Nothing) (cancelled : Cancellation W)
      (m : Members W)
      → Safe m (apply_preferences V review apply cancelled m)
  unfolding apply_preferences
  apply_preferences-Safe review apply cancelled o = reviewed-Safe review cancelled _ o (λ token m.
      bind-Safe (λ c m'. Fixed m m') m _ _ m
        (loosely _ m _ (guarded-Meets V _ m _ m (outside-Meets m m _ (Fixed-refl m))))
        (λ c m1 h1. bind-Safe _ m _ _ m1 (calmly _ m _ (require-Meets m m1 _ _ h1)) (λ a m2 (h2, t).
          bind-Safe (λ a m'. Fixed m m') m _ _ m2 (calmly _ m _ (cancelled-Meets m m2 cancelled h2))
            (λ a m3 h3. later-Safe m m3 _ (Fixed-Same m m3 h3) (outside-Safe m3 apply)))))
