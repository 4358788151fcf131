-- ===== src/Account/Access.antt =====
-- The access token (`authorized` of src/account/AccountSession.cpp): what it is taken from, and
-- what refreshing it and losing it do to the session.
use msime_linux.Base.{
  true, Option, none, some, bytes_eq, bytes_eq_iff, ◌==◌, ◌≡◌, refl, ◌∙◌, sym, ap, ◌⊎◌, inl, inr,
  Bool-cases,
}
use msime_linux.Account.Types.{Tokens, SavedSession, Error, failure, other}
use msime_linux.Account.Monad.{Reply, done, threw, Members, Op, Cancellation, ◌>>=◌, give, throw}
use msime_linux.Account.Session.{
  Services, next_generation, clock_is_valid, found, signed_in, hold, replace, read_clock, saved,
  discard, on_failure, guarded, refresh_session,
}
use msime_linux.Account.Meets.{
  user_id, Meets, Same, Moved, Fixed, bind-Meets, weaken-Meets, Fixed-refl, Fixed-Same, Fixed-Moved,
  outside-Meets, require-Meets,
}

module _ {W : Type 0} where
  -- A session that was given up: none is held, and the generation is the next one.
  unfoldable pub Gone : Members W → Members W → Type 0
  Gone o m = (m.session ≡ none) × (m.generation ≡ next_generation o.generation)

  Gone-Fixed : (o m m' : Members W) → Gone o m → Fixed m m' → Gone o m'
  unfolding Gone Fixed
  Gone-Fixed o m m' (a, b) (c, d, e) = (e ∙ a, d ∙ b)

  replace-Gone :
      (o m : Members W)
      → m.generation ≡ o.generation
      → Meets (λ a m'. Gone o m') (Gone o) (replace none m)
  unfolding Meets replace Gone
  replace-Gone o m h = (refl, ap next_generation h)

  -- How an operation fails: with the session as it was, or with the session given up.
  unfoldable pub Failed : Members W → Members W → Type 0
  Failed o m = Fixed o m ⊎ Gone o m

  pub Failed-Moved : (o m : Members W) → Failed o m → Moved o m
  unfolding Failed Moved Gone
  Failed-Moved o m (inl h) = Fixed-Moved o m h
  Failed-Moved o m (inr (a, b)) = inr b

  throw-Meets :
      {A : Type 0}
      → (P : A → Members W → Type 0) (F : Members W → Type 0) (m : Members W) (e : Error) → F m
      → Meets P F (throw e m)
  unfolding Meets throw
  throw-Meets P F m e h = h

  -- A part that fails with the session as it was.
  pub quietly :
      {A : Type 0}
      → (P : A → Members W → Type 0) (o : Members W) (r : Reply A × Members W) → Meets P (Fixed o) r
      → Meets P (Failed o) r
  unfolding Failed
  quietly P o r h = weaken-Meets P P (Fixed o) (Failed o) r h (λ a m k. k) (λ m k. inl k)

  pub give-Fixed :
      {A : Type 0}
      → (a : A) (o m : Members W) → Fixed o m
      → Meets (λ x m'. Fixed o m') (Fixed o) (give a m)
  unfolding Meets give
  give-Fixed a o m h = h

  -- `session_->` after a part that left a session.
  found_held :
      (F : Members W → Type 0) (m : Members W) (x : Option SavedSession) (s : SavedSession)
      → x ≡ some s
      → Meets (λ a m'. (m' ≡ m) × (a ≡ s)) F (found x m)
  unfolding Meets found
  found_held F m none s e = absurd (cc e)
  found_held F m (some t) s e = (refl, cc e)

  pub held_session-Meets :
      (F : Members W → Type 0) (m : Members W) (s : SavedSession)
      → m.session ≡ some s
      → Meets (λ a m'. (m' ≡ m) × (a ≡ s)) F (signed_in m)
  unfolding signed_in
  held_session-Meets F m s e = found_held F m m.session s e

  -- The account is kept, and a session is held.
  unfoldable pub Held : Members W → Members W → Type 0
  Held o m = Same o m × ((s : SavedSession) × (m.session ≡ some s))

  pub Fixed-Held : (o m : Members W) (s : SavedSession) → Fixed o m → o.session ≡ some s → Held o m
  unfolding Held Fixed
  Fixed-Held o m s h e = (Fixed-Same o m h, (s, h.2 ∙ e))

  pub hold-Held :
      (o m : Members W) (s next : SavedSession)
      → Fixed o m
      → o.session ≡ some s
      → next.tokens.user.id ≡ s.tokens.user.id
      → Meets (λ a m'. Held o m' × (m'.session ≡ some next)) (Failed o) (hold next m)
  unfolding Meets hold Held Same Fixed user_id
  hold-Held o m s next h e same =
      (((h.0, h.1, ap some same ∙ sym (ap user_id e)), (next, refl)), refl)

module _ {W K B : Type 0} (V : Services W K B) where
  pub discard-Gone :
      (o m : Members W)
      → m.generation ≡ o.generation
      → Meets (λ a m'. Gone o m') (Gone o) (discard V m)
  unfolding discard
  discard-Gone o m h =
      bind-Meets (λ a m'. Gone o m') _ (Gone o) (replace none) _ m (replace-Gone o m h)
        (λ a m' g.
          weaken-Meets _ _ _ _ _ (outside-Meets m' m' V.clear (Fixed-refl m'))
            (λ a' m'' f. Gone-Fixed o m' m'' g f) (λ m'' f. Gone-Fixed o m' m'' g f))

  -- The rest of a `catch` block.
  revoked-Meets :
      {A : Type 0}
      → (P : A → Members W → Type 0) (o m : Members W) (e : Error) → Fixed o m
      → Meets P (Failed o) ((discard V >>= (λ _. throw e)) m)
  unfolding Failed Fixed
  revoked-Meets P o m e h =
      bind-Meets (λ a m'. Gone o m') P (Failed o) (discard V) _ m
        (weaken-Meets _ _ _ _ _ (discard-Gone o m h.1) (λ a m' g. g) (λ m' g. inr g))
        (λ a m' g. throw-Meets P (Failed o) m' e (inr g))

  on_failure-Meets :
      {A : Type 0}
      → (P : A → Members W → Type 0) (o : Members W) (r : Reply A × Members W) → Meets P (Fixed o) r
      → Meets P (Failed o) (on_failure V r)
  unfolding Meets on_failure Failed
  on_failure-Meets P o (done a, m) h = h
  on_failure-Meets P o (threw (other n), m) h = inl h
  on_failure-Meets P o (threw (failure status stopped), m) h = elim (Bool-cases (status == 401)) [
    | inl e ↦ rw e (revoked-Meets P o m _ h)
    | inr e ↦ rw e (inl h)
  ]

  pub guarded-Meets :
      {A : Type 0}
      → (P : A → Members W → Type 0) (o : Members W) (op : Op W A) (m : Members W)
      → Meets P (Fixed o) (op m)
      → Meets P (Failed o) (guarded V op m)
  unfolding guarded
  guarded-Meets P o op m h = on_failure-Meets P o (op m) h

  -- The members after a part that keeps the account: the same generation, for the same account.
  pub clock-Meets :
      (o m : Members W) → Fixed o m → Meets (λ now m'. Fixed o m') (Fixed o) (read_clock V m)
  unfolding read_clock
  clock-Meets o m h =
      bind-Meets (λ now m'. Fixed o m') _ (Fixed o) _ _ m (outside-Meets o m V.clock h)
        (λ now m' h'.
          bind-Meets (λ a m''. Fixed o m'' × (clock_is_valid now ≡ true)) _ (Fixed o) _ _ m'
            (require-Meets o m' _ _ h') (λ a m'' (h'', c). give-Fixed now o m'' h''))

  pub saved-Meets :
      (o m : Members W) (tokens : Tokens)
      → Fixed o m
      → Meets (λ s m'. Fixed o m' × (s.tokens ≡ tokens)) (Fixed o) (saved V tokens m)
  unfolding saved give Meets
  saved-Meets o m tokens h =
      bind-Meets (λ now m'. Fixed o m') (λ s m'. Fixed o m' × (s.tokens ≡ tokens)) (Fixed o) _ _ m
        (clock-Meets o m h) (λ now m' h'. (h', refl))

  pub refresh-Meets :
      (o m : Members W) (s : SavedSession) (cancelled : Cancellation W)
      → Fixed o m
      → o.session ≡ some s
      → Meets (λ a m'. Held o m') (Failed o) (refresh_session V s cancelled m)
  unfolding refresh_session
  refresh-Meets o m s cancelled h e =
      bind-Meets (λ t m'. Fixed o m') _ (Failed o) _ _ m
        (guarded-Meets _ o _ m (outside-Meets o m _ h))
        (λ t m1 h1.
          bind-Meets (λ a m'. Fixed o m' × (bytes_eq t.user.id s.tokens.user.id ≡ true)) _
            (Failed o) _ _ m1 (quietly _ o _ (require-Meets o m1 _ _ h1))
            (λ a m2 (h2, same).
              bind-Meets (λ n m'. Fixed o m' × (n.tokens ≡ t)) _ (Failed o) _ _ m2
                (quietly _ o _ (saved-Meets o m2 t h2))
                (λ n m3 (h3, from).
                  bind-Meets (λ a m'. Fixed o m') _ (Failed o) _ _ m3
                    (quietly _ o _ (outside-Meets o m3 _ h3))
                    (λ a m4 h4.
                      weaken-Meets _ _ _ _ _
                        (hold-Held o m4 s n h4 e
                          (ap (λ t. t.user.id) from ∙ (bytes_eq_iff _ _).0 same))
                        (λ a m' (k, _). k) (λ m' k. k)))))
