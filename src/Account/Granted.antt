-- ===== src/Account/Granted.antt =====
-- `authorized` of src/account/AccountSession.cpp as a whole.
use msime_linux.Base.{
  ℕ, Bool, true, false, some, Bytes, ◌≡◌, refl, ◌∙◌, sym, ap, subst, if◌then◌else◌,
}
use msime_linux.Account.Types.{SavedSession}
use msime_linux.Account.Monad.{nothing, Members, Cancellation, ◌>>=◌, give}
use msime_linux.Account.Session.{Services, signed_in, refresh_session, authorized}
use msime_linux.Account.Meets.{
  Meets, Same, Fixed, bind-Meets, generation-Meets, cancelled-Meets, signed_in-Meets,
}
use msime_linux.Account.Access.{
  Failed, Held, Fixed-Held, quietly, clock-Meets, refresh-Meets, held_session-Meets,
}

module _ {W : Type 0} where
  -- What a granted token says: the generation was asked for by its number, the account is the same,
  -- and the token is that of the session which is held now.
  unfoldable pub Granted : Members W → ℕ → Bytes → Members W → Type 0
  Granted o generation token m =
      (o.restored ≡ true)
      × (generation ≡ o.generation)
      × Same o m
      × ((s : SavedSession) × (m.session ≡ some s) × (token ≡ s.tokens.access_token))

  give-Held : (o m : Members W) → Held o m → Meets (λ a m'. Held o m') (Failed o) (give nothing m)
  unfolding Meets give
  give-Held o m h = h

  give-Granted :
      (o m : Members W) (generation : ℕ) (s : SavedSession)
      → o.restored ≡ true
      → generation ≡ o.generation
      → Same o m
      → m.session ≡ some s
      → Meets (Granted o generation) (Failed o) (give s.tokens.access_token m)
  unfolding Meets give Granted
  give-Granted o m generation s r g same e = (r, g, same, (s, e, refl))

  -- The end of `authorized`.
  token-Meets :
      (o m : Members W) (generation : ℕ)
      → o.restored ≡ true
      → generation ≡ o.generation
      → Held o m
      → Meets
          (Granted o generation)
          (Failed o)
          ((signed_in >>= (λ s. give s.tokens.access_token)) m)
  unfolding Held
  token-Meets o m generation r g (same, (s, e)) =
      bind-Meets (λ a m'. (m' ≡ m) × (a ≡ s)) (Granted o generation) (Failed o) _ _ m
        (held_session-Meets (Failed o) m s e)
        (λ a m' (here, it).
          give-Granted o m' generation a r g (subst (λ x. Same o x) (sym here) same)
            (ap (λ x. x.session) here ∙ e ∙ ap some (sym it)))

module _ {W K B : Type 0} (V : Services W K B) where
  renewal-Meets :
      (o m : Members W) (s : SavedSession) (expired : Bool) (cancelled : Cancellation W)
      → Fixed o m
      → o.session ≡ some s
      → Meets
          (λ a m'. Held o m')
          (Failed o)
          ((if expired then refresh_session V s cancelled else give nothing) m)
  renewal-Meets o m s true cancelled h e = refresh-Meets V o m s cancelled h e
  renewal-Meets o m s false cancelled h e = give-Held o m (Fixed-Held o m s h e)

  -- Asking for an access token, whatever the account service, the keyring and the clock answer: a
  -- token is returned only where the session was restored and the generation asked for is the
  -- present one, and it is then the token of the session held afterwards, which is one of the same
  -- account under the same generation, refreshed or not; where it throws, the session and the
  -- generation are as they were, or the session is gone and the generation is the next one. `m` is
  -- any members that differ from `o` in the world only.
  pub authorized-Granted :
      (o m : Members W) (generation : ℕ) (cancelled : Cancellation W)
      → Fixed o m
      → Meets (Granted o generation) (Failed o) (authorized V generation cancelled m)
  unfolding authorized Fixed
  authorized-Granted o m generation cancelled h =
      bind-Meets (λ a m'. Fixed o m' × (m.restored ≡ true) × (generation ≡ m.generation)) _
        (Failed o) _ _ m (quietly _ o _ (generation-Meets o m generation h))
        (λ a m1 (h1, r, g).
          bind-Meets (λ a m'. Fixed o m') _ (Failed o) _ _ m1
            (quietly _ o _ (cancelled-Meets o m1 cancelled h1))
            (λ a m2 h2.
              bind-Meets (λ s m'. Fixed o m' × (m'.session ≡ some s)) _ (Failed o) _ _ m2
                (quietly _ o _ (signed_in-Meets o m2 h2))
                (λ s m3 (h3, e).
                  bind-Meets (λ now m'. Fixed o m') _ (Failed o) _ _ m3
                    (quietly _ o _ (clock-Meets V o m3 h3))
                    (λ now m4 h4.
                      bind-Meets (λ a m'. Held o m') _ (Failed o) _ _ m4
                        (renewal-Meets o m4 s _ cancelled h4 (sym h3.2 ∙ e))
                        (λ a m5 h5. token-Meets o m5 generation (sym h.0 ∙ r) (g ∙ h.1) h5)))))
