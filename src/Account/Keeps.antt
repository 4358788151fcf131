-- ===== src/Account/Keeps.antt =====
-- Every method of src/account/AccountSession.cpp keeps the account under its generation, or leaves
-- the next generation, whether it returns or throws.
use msime_linux.Base.{
  ℕ, true, some, Bytes, bytes_eq, bytes_eq_iff, ◌≡◌, refl, ◌∙◌, sym, ap, inl, inr,
}
use msime_linux.Account.Types.{SavedSession}
use msime_linux.Account.Monad.{Reply, Members, Op, Call, Cancellation, ◌>>=◌, give, outside}
use msime_linux.Account.Session.{Services, next_generation, current, guarded, authorized}
use msime_linux.Account.Preferences.{read_profile, profile, rename}
use msime_linux.Account.Operations.{begin_link, with_token}
use msime_linux.Account.Meets.{
  Meets, Same, Moved, Fixed, bind-Meets, weaken-Meets, Fixed-refl, Fixed-Same, Fixed-Moved,
  outside-Meets, require-Meets, signed_in-Meets,
}
use msime_linux.Account.Access.{Failed, Held, Failed-Moved, quietly, guarded-Meets, hold-Held}
use msime_linux.Account.Granted.{Granted, authorized-Granted}

module _ {W : Type 0} where
  -- What every operation promises of the members it leaves.
  unfoldable pub Safe : {A : Type 0} → Members W → Reply A × Members W → Type 0
  Safe o r = Meets (λ a m'. Moved o m') (Moved o) r

  pub Same-Moved : (o m m' : Members W) → Same o m → Moved m m' → Moved o m'
  unfolding Same Moved
  Same-Moved o m m' (a, b, c) (inl (a', b', c')) = inl (a' ∙ a, b' ∙ b, c' ∙ c)
  Same-Moved o m m' (a, b, c) (inr e) = inr (e ∙ ap next_generation b)

  pub bind-Safe :
      {A B : Type 0}
      → (P : A → Members W → Type 0) (o : Members W) (op : Op W A) (f : A → Op W B) (m : Members W)
      → Meets P (Moved o) (op m)
      → ((a : A) (m' : Members W) → P a m' → Safe o (f a m'))
      → Safe o ((op >>= f) m)
  unfolding Safe
  bind-Safe P o op f m h k = bind-Meets P _ (Moved o) op f m h k

  -- A part that fails with the session as it was, or given up.
  pub loosely :
      {A : Type 0}
      → (P : A → Members W → Type 0) (o : Members W) (r : Reply A × Members W)
      → Meets P (Failed o) r
      → Meets P (Moved o) r
  loosely P o r h =
      weaken-Meets P P (Failed o) (Moved o) r h (λ a m k. k) (λ m k. Failed-Moved o m k)

  pub calmly :
      {A : Type 0}
      → (P : A → Members W → Type 0) (o : Members W) (r : Reply A × Members W) → Meets P (Fixed o) r
      → Meets P (Moved o) r
  calmly P o r h = weaken-Meets P P (Fixed o) (Moved o) r h (λ a m k. k) (λ m k. Fixed-Moved o m k)

  pub Fixed-Safe :
      {A : Type 0}
      → (o : Members W) (r : Reply A × Members W) → Meets (λ a m'. Fixed o m') (Failed o) r
      → Safe o r
  unfolding Safe
  Fixed-Safe o r h =
      weaken-Meets _ _ _ _ r h (λ a m k. Fixed-Moved o m k) (λ m k. Failed-Moved o m k)

  pub give-Safe : {A : Type 0} → (o m : Members W) (a : A) → Moved o m → Safe o (give a m)
  unfolding Safe Meets give
  give-Safe o m a h = h

  -- A safe operation after a part that kept the account.
  pub later-Safe :
      {A : Type 0} → (o m : Members W) (r : Reply A × Members W) → Same o m → Safe m r → Safe o r
  unfolding Safe
  later-Safe o m r h k =
      weaken-Meets _ _ _ _ r k (λ a m' x. Same-Moved o m m' h x) (λ m' x. Same-Moved o m m' h x)

  pub outside-Safe : {A : Type 0} → (m : Members W) (call : Call W A) → Safe m (outside call m)
  outside-Safe m call = Fixed-Safe m _ (quietly _ m _ (outside-Meets m m call (Fixed-refl m)))

  Held-here : (m : Members W) (s : SavedSession) → m.session ≡ some s → Held m m
  unfolding Held Same
  Held-here m s e = ((refl, refl, refl), (s, e))

  pub current-Safe : (o m : Members W) → Moved o m → Safe o (current m)
  unfolding Safe Meets current
  current-Safe o m h = h

module _ {W K B : Type 0} (V : Services W K B) where
  pub authorized-Safe :
      {A : Type 0}
      → (generation : ℕ) (cancelled : Cancellation W) (f : Bytes → Op W A) (o : Members W)
      → ((token : Bytes) (m : Members W) → Held m m → Safe m (f token m))
      → Safe o ((authorized V generation cancelled >>= f) o)
  unfolding Granted
  authorized-Safe generation cancelled f o h =
      bind-Safe (Granted o generation) o (authorized V generation cancelled) f o
        (loosely _ o _ (authorized-Granted V o o generation cancelled (Fixed-refl o)))
        (λ token m (r, g, same, (s, e, t)). later-Safe o m _ same (h token m (Held-here m s e)))

  -- The calls that need a token and change nothing but the world, or give the session up.
  pub guarded-Safe :
      {A : Type 0}
      → (m : Members W) (op : Op W A) → Meets (λ a m'. Fixed m m') (Fixed m) (op m)
      → Safe m (guarded V op m)
  guarded-Safe m op h = Fixed-Safe m _ (guarded-Meets V _ m op m h)

  pub with_token-Safe :
      {A : Type 0}
      → (generation : ℕ) (cancelled : Cancellation W) (operation : Bytes → Op W A) (m : Members W)
      → ((token : Bytes) (m' : Members W)
          → Meets (λ a m''. Fixed m' m'') (Fixed m') (operation token m'))
      → Safe m (with_token V generation cancelled operation m)
  unfolding with_token
  with_token-Safe generation cancelled operation m h =
      authorized-Safe generation cancelled _ m (λ token m' held. guarded-Safe m' _ (h token m'))

  pub call-Safe :
      {A : Type 0}
      → (generation : ℕ) (cancelled : Cancellation W) (call : Bytes → Call W A) (m : Members W)
      → Safe m (with_token V generation cancelled (λ token. outside (call token)) m)
  call-Safe generation cancelled call m =
      with_token-Safe generation cancelled _ m
        (λ token m'. outside-Meets m' m' (call token) (Fixed-refl m'))

  pub two_calls-Safe :
      {A B : Type 0}
      → (generation : ℕ) (cancelled : Cancellation W) (first : Bytes → Call W A)
        (second : Bytes → Call W B) (m : Members W)
      → Safe m (
          with_token V generation cancelled
            (λ token. outside (first token) >>= (λ a. outside (second token)))
            m)
  two_calls-Safe generation cancelled first second m =
      with_token-Safe generation cancelled _ m (λ token m'.
        bind-Meets (λ a m''. Fixed m' m'') _ (Fixed m') _ _ m'
          (outside-Meets m' m' (first token) (Fixed-refl m'))
          (λ a m'' h. outside-Meets m' m'' (second token) h))

  pub begin_link-Safe :
      (generation : ℕ) (p t : Bytes) (cancelled : Cancellation W) (m : Members W)
      → Safe m (begin_link V generation p t cancelled m)
  unfolding begin_link
  begin_link-Safe generation p t cancelled m =
      authorized-Safe generation cancelled _ m (λ token m' held. outside-Safe m' _)

  read_profile-Safe :
      (token : Bytes) (cancelled : Cancellation W) (m : Members W)
      → Safe m (read_profile V token cancelled m)
  unfolding read_profile Safe Fixed Held
  read_profile-Safe token cancelled m =
      bind-Safe (λ p m'. Fixed m m') m _ _ m
        (loosely _ m _ (guarded-Meets V _ m _ m (outside-Meets m m _ (Fixed-refl m))))
        (λ p m1 h1.
          bind-Safe (λ s m'. Fixed m m' × (m'.session ≡ some s)) m _ _ m1
            (calmly _ m _ (signed_in-Meets m m1 h1))
            (λ s m2 (h2, e).
              bind-Safe (λ a m'. Fixed m m' × (bytes_eq p.user.id s.tokens.user.id ≡ true)) m _ _ m2
                (calmly _ m _ (require-Meets m m2 _ _ h2))
                (λ a m3 (h3, same).
                  bind-Safe (λ a m'. Fixed m m') m _ _ m3 (calmly _ m _ (outside-Meets m m3 _ h3))
                    (λ a m4 h4.
                      bind-Safe (λ a m'. Held m m' × (m'.session ≡ some _)) m _ _ m4
                        (loosely _ m _
                          (hold-Held m m4 s _ h4 (sym h2.2 ∙ e) ((bytes_eq_iff _ _).0 same)))
                        (λ a m5 (held, k).
                          give-Safe m m5 p
                            (Same-Moved m m5 m5 held.0 (Fixed-Moved m5 m5 (Fixed-refl m5))))))))

  pub profile-Safe :
      (generation : ℕ) (cancelled : Cancellation W) (m : Members W)
      → Safe m (profile V generation cancelled m)
  unfolding profile
  profile-Safe generation cancelled m =
      authorized-Safe generation cancelled _ m
        (λ token m' held. read_profile-Safe token cancelled m')

  pub rename-Safe :
      (generation : ℕ) (name : Bytes) (cancelled : Cancellation W) (m : Members W)
      → Safe m (rename V generation name cancelled m)
  unfolding rename
  rename-Safe generation name cancelled m =
      authorized-Safe generation cancelled _ m (λ token m' held.
        bind-Safe (λ a m''. Fixed m' m'') m' _ _ m'
          (calmly _ m' _ (outside-Meets m' m' _ (Fixed-refl m')))
          (λ a m'' h.
            later-Safe m' m'' _ (Fixed-Same m' m'' h) (read_profile-Safe token cancelled m'')))
