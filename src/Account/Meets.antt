-- ===== src/Account/Meets.antt =====
-- What an operation of src/account/AccountSession.cpp leaves behind, when it returns and when it
-- throws, put together from what its parts leave.
use msime_linux.Base.{
  ℕ, Bool, true, false, Option, none, some, Bytes, ◌≡◌, refl, ◌∙◌, ◌⊎◌, inl, inr, Bool-cases, arith,
  ap,
}
use msime_linux.Account.Types.{SavedSession, Error}
use msime_linux.Account.Monad.{
  Reply, done, threw, Members, Op, Call, Cancellation, ◌>>=◌, after, give, throw, require, outside,
}
use msime_linux.Account.Session.{
  next_generation, require_generation, check_cancelled, found, signed_in,
}

-- The account that a session belongs to.
unfoldable pub user_id : Option SavedSession → Option Bytes
user_id none = none
user_id (some s) = some s.tokens.user.id

module _ {W : Type 0} where
  -- `P` holds of the result and the members after it, or `F` of the members after an exception.
  unfoldable pub Meets :
      {A : Type 0} → (A → Members W → Type 0) → (Members W → Type 0) → Reply A × Members W → Type 0
  Meets P F (done a, m) = P a m
  Meets P F (threw e, m) = F m

  -- The same generation, for the same account.
  unfoldable pub Same : Members W → Members W → Type 0
  Same m m' =
      (m'.restored ≡ m.restored)
      × (m'.generation ≡ m.generation)
      × (user_id m'.session ≡ user_id m.session)

  -- The same generation for the same account, or the next generation.
  unfoldable pub Moved : Members W → Members W → Type 0
  unfolding Same
  Moved m m' = Same m m' ⊎ (m'.generation ≡ next_generation m.generation)

  after-Meets :
      {A B : Type 0}
      → (P : A → Members W → Type 0) (Q : B → Members W → Type 0) (F : Members W → Type 0)
        (f : A → Op W B) (r : Reply A × Members W)
      → Meets P F r
      → ((a : A) (m : Members W) → P a m → Meets Q F (f a m))
      → Meets Q F (after f r)
  unfolding after Meets
  after-Meets P Q F f (done a, m) h k = k a m h
  after-Meets P Q F f (threw e, m) h k = h

  pub bind-Meets :
      {A B : Type 0}
      → (P : A → Members W → Type 0) (Q : B → Members W → Type 0) (F : Members W → Type 0)
        (op : Op W A) (f : A → Op W B) (m : Members W)
      → Meets P F (op m)
      → ((a : A) (m' : Members W) → P a m' → Meets Q F (f a m'))
      → Meets Q F ((op >>= f) m)
  unfolding ◌>>=◌
  bind-Meets P Q F op f m h k = after-Meets P Q F f (op m) h k

  pub weaken-Meets :
      {A : Type 0}
      → (P Q : A → Members W → Type 0) (F G : Members W → Type 0) (r : Reply A × Members W)
      → Meets P F r
      → ((a : A) (m : Members W) → P a m → Q a m)
      → ((m : Members W) → F m → G m)
      → Meets Q G r
  unfolding Meets
  weaken-Meets P Q F G (done a, m) h p f = p a m h
  weaken-Meets P Q F G (threw e, m) h p f = f m h

  -- The members after an outside call: only the world is another.
  unfoldable pub Fixed : Members W → Members W → Type 0
  Fixed m m' =
      (m'.restored ≡ m.restored) × (m'.generation ≡ m.generation) × (m'.session ≡ m.session)

  pub Fixed-refl : (m : Members W) → Fixed m m
  unfolding Fixed
  Fixed-refl m = (refl, refl, refl)

  pub Fixed-trans : (m m' m'' : Members W) → Fixed m m' → Fixed m' m'' → Fixed m m''
  unfolding Fixed
  Fixed-trans m m' m'' (a, b, c) (a', b', c') = (a' ∙ a, b' ∙ b, c' ∙ c)

  pub Fixed-Same : (m m' : Members W) → Fixed m m' → Same m m'
  unfolding Fixed Same
  Fixed-Same m m' (a, b, c) = (a, b, ap user_id c)

  pub Fixed-Moved : (m m' : Members W) → Fixed m m' → Moved m m'
  unfolding Moved
  Fixed-Moved m m' h = inl (Fixed-Same m m' h)

  -- The operations that change nothing but the world, from members `m` that an operation on `o`
  -- has come to.
  pub outside-Meets :
      {A : Type 0}
      → (o m : Members W) (call : Call W A) → Fixed o m
      → Meets (λ a m'. Fixed o m') (Fixed o) (outside call m)
  unfolding Meets outside Fixed
  outside-Meets o m call h = elim (Reply-cases (call m.world).0) [
    | inl (a, e) ↦ rw e h
    | inr (x, e) ↦ rw e h
  ]
    where
      Reply-cases :
          {A : Type 0} → (r : Reply A) → ((a : A) × (r ≡ done a)) ⊎ ((e : Error) × (r ≡ threw e))
      Reply-cases (done a) = inl (a, refl)
      Reply-cases (threw e) = inr (e, refl)

  pub require-Meets :
      (o m : Members W) (e : Error) (test : Bool)
      → Fixed o m
      → Meets (λ a m'. Fixed o m' × (test ≡ true)) (Fixed o) (require e test m)
  unfolding Meets require give throw
  require-Meets o m e true h = (h, refl)
  require-Meets o m e false h = h

  pub generation-Meets :
      (o m : Members W) (generation : ℕ)
      → Fixed o m
      → Meets
          (λ a m'. Fixed o m' × (m.restored ≡ true) × (generation ≡ m.generation))
          (Fixed o)
          (require_generation generation m)
  unfolding Meets require_generation
  generation-Meets o m generation h = ground arith

  pub cancelled-Meets :
      (o m : Members W) (cancelled : Cancellation W)
      → Fixed o m
      → Meets (λ a m'. Fixed o m') (Fixed o) (check_cancelled cancelled m)
  unfolding Meets check_cancelled
  cancelled-Meets o m none h = h
  cancelled-Meets o m (some test) h = elim (Bool-cases (test m.world)) [
    | inl e ↦ rw e h
    | inr e ↦ rw e h
  ]

  found-Meets :
      (o m : Members W) (x : Option SavedSession)
      → Fixed o m
      → m.session ≡ x
      → Meets (λ s m'. Fixed o m' × (m'.session ≡ some s)) (Fixed o) (found x m)
  unfolding Meets found
  found-Meets o m none h e = h
  found-Meets o m (some s) h e = (h, e)

  pub signed_in-Meets :
      (o m : Members W)
      → Fixed o m
      → Meets (λ s m'. Fixed o m' × (m'.session ≡ some s)) (Fixed o) (signed_in m)
  unfolding signed_in
  signed_in-Meets o m h = found-Meets o m m.session h refl
