-- ===== src/Account/Ended.antt =====
-- The end of a session (src/account/AccountSession.cpp): signing out, and a token that the account
-- service refuses.
use msime_linux.Base.{
  ℕ, ◌+◌, ◌%◌, ◌^◌, Option, none, some, Bool, true, false, ◌==◌, ◌≡◌, refl, ◌∙◌, sym, ap, subst,
  Bytes, arith,
}
use msime_linux.Account.Types.{Error, failure}
use msime_linux.Account.Monad.{
  Reply, done, threw, nothing, Members, Op, Call, Cancellation, ◌>>=◌, after, outside, throw,
  cancelled_failure,
}
use msime_linux.Account.Session.{
  Services, next_generation, discard, on_failure, guarded, authorized,
}
use msime_linux.Account.Operations.{logout, with_token}
use msime_linux.Account.Meets.{Meets, Same, Fixed-refl}
use msime_linux.Account.Access.{Gone, Failed, discard-Gone}
use msime_linux.Account.Granted.{Granted, authorized-Granted}
use msime_linux.Account.Actions.{Action, perform}
use msime_linux.Account.Refused.{generation_of, is_late, late_action_refused}

module _ {W : Type 0} where
  after-done :
      {A B : Type 0}
      → (op : Op W A) (f : A → Op W B) (m m' : Members W) (a : A) → op m ≡ (done a, m')
      → (op >>= f) m ≡ f a m'
  unfolding ◌>>=◌ after
  after-done op f m m' a h = ap (after f) h

  outside_answer :
      {A : Type 0}
      → (call : Call W A) (m : Members W) (w : W) (r : Reply A) → call m.world ≡ (r, w)
      → outside call m ≡ (r, record m { world = w })
  unfolding outside
  outside_answer {A = A} call m w r h = ap (λ (p : Reply A × W). (p.0, record m { world = p.1 })) h

  after-throw :
      {A : Type 0}
      → (B : Type 0) (e : Error) (r : Reply A × Members W)
      → (after {B = B} (λ a. throw e) r).1 ≡ r.1
  unfolding after throw
  after-throw B e (done a, m) = refl
  after-throw B e (threw x, m) = refl

  Meets-Gone :
      {A : Type 0}
      → (o : Members W) (r : Reply A × Members W) → Meets (λ a m. Gone o m) (Gone o) r
      → Gone o r.1
  unfolding Meets
  Meets-Gone o (done a, m) h = h
  Meets-Gone o (threw e, m) h = h

late_number : (g : ℕ) → (g == (g + 1) % 2 ^ 64) ≡ false
late_number g = ground arith

next_is_late : (o : Option ℕ) (g : ℕ) → o ≡ some g → is_late o (next_generation g) ≡ true
unfolding is_late next_generation
next_is_late none g e = absurd (cc e)
next_is_late (some h) g e = ground (arith, late_number g)

module _ {W K B : Type 0} (V : Services W K B) where
  -- Nobody is signed in, and every call made for generation `g` is refused at once.
  unfoldable pub Ended : ℕ → Members W → Type 0
  Ended g m =
      (m.session ≡ none)
      × ((a : Action W K B)
          → generation_of a ≡ some g
          → perform V a m ≡ (threw cancelled_failure, m))

  Gone-Ended : (o m : Members W) (g : ℕ) → o.generation ≡ g → Gone o m → Ended g m
  unfolding Gone Ended
  Gone-Ended o m g e (s, n) = (
    s,
    λ a made.
        late_action_refused V a m
          (ap (is_late (generation_of a)) (n ∙ ap next_generation e) ∙ next_is_late _ g made),
  )

  discard_ends : (m : Members W) (g : ℕ) → m.generation ≡ g → Ended g (discard V m).1
  discard_ends m g e = Gone-Ended m _ g e (Meets-Gone m (discard V m) (discard-Gone V m m refl))

  granted_generation :
      (m m' : Members W) (g : ℕ) (x : Cancellation W) (token : Bytes)
      → authorized V g x m ≡ (done token, m')
      → m'.generation ≡ g
  unfolding Meets Granted Same
  granted_generation m m' g x token h =
      let granted : Granted m g token m' =
        subst (λ r. Meets (Granted m g) (Failed m) r) h
          (authorized-Granted V m m g x (Fixed-refl m)) in
      granted.2.1 ∙ sym granted.1

  refused_ends :
      {A : Type 0}
      → (op : Op W A) (m m' : Members W) (g : ℕ) (stopped : Bool)
      → op m ≡ (threw (failure 401 stopped), m')
      → m'.generation ≡ g
      → Ended g (guarded V op m).1
  unfolding guarded on_failure ◌>>=◌
  refused_ends {A = A} op m m' g stopped h e =
      subst (λ r. Ended g (on_failure V r).1) (sym h)
        (subst (Ended g) (sym (after-throw A (failure 401 stopped) (discard V m')))
          (discard_ends m' g e))

  -- Signing out: where a token was granted and the account service confirmed the logout, nobody is
  -- signed in afterwards, even when the keyring fails to remove the record, and every public method
  -- that is called then for the old generation throws the cancelled failure without changing a
  -- member or asking the account service, the keyring or the clock.
  pub logout_ends :
      (g : ℕ) (everywhere : Bool) (x : Cancellation W) (m m' : Members W) (token : Bytes) (w : W)
      → authorized V g x m ≡ (done token, m')
      → V.logout token everywhere x m'.world ≡ (done nothing, w)
      → Ended g (logout V g everywhere x m).1
  unfolding logout
  logout_ends g everywhere x m m' token w granted confirmed =
      subst (λ r. Ended g r.1)
        (sym (
          after-done _ _ m m' token granted
          ∙ after-done _ _ m' (record m' { world = w }) nothing
              (outside_answer _ m' w _ confirmed)))
        (discard_ends (record m' { world = w }) g (granted_generation m m' g x token granted))

  -- A token that the account service refuses with status 401 ends the session in the same way, in
  -- the methods that are one call with a token: afterwards nobody is signed in, even when the
  -- keyring fails to remove the record, and every public method that is called then for the old
  -- generation throws the cancelled failure and does nothing else.
  pub refused_token_ends :
      {A : Type 0}
      → (g : ℕ) (x : Cancellation W) (call : Bytes → Call W A) (m m' : Members W) (token : Bytes)
        (w : W) (stopped : Bool)
      → authorized V g x m ≡ (done token, m')
      → call token m'.world ≡ (threw (failure 401 stopped), w)
      → Ended g (with_token V g x (λ t. outside (call t)) m).1
  unfolding with_token
  refused_token_ends g x call m m' token w stopped granted refused =
      subst (λ r. Ended g r.1) (sym (after-done _ _ m m' token granted))
        (refused_ends _ m' (record m' { world = w }) g stopped (outside_answer _ m' w _ refused)
          (granted_generation m m' g x token granted))
