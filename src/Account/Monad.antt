-- ===== src/Account/Monad.antt =====
-- Operations of an account session (src/account/AccountSession.h): each reads and changes the
-- members and the outside world, and returns or throws. What an operation changed before it threw
-- stays changed.
use msime_linux.Base.{ℕ, Bool, true, Option, if◌then◌else◌}
use msime_linux.Account.Types.{Error, failure, SavedSession}

pub data Reply (A : Type 0) : Type 0 where
  done : A → Reply A
  threw : Error → Reply A

-- The result of a call that returns nothing.
pub data Nothing : Type 0 where
  nothing : Nothing

-- `world` is what lies outside the object: the account service, the keyring, the clock.
pub record Members (W : Type 0) : Type 0 where
  pub restored : Bool
  pub generation : ℕ
  pub session : Option SavedSession
  pub world : W

-- An operation, and a call of code outside the object.
abbrev pub Op : Type 0 → Type 0 → Type 0
Op W A = Members W → Reply A × Members W

abbrev pub Call : Type 0 → Type 0 → Type 0
Call W A = W → Reply A × W

-- `online::CancellationCheck`: empty, or a callback.
abbrev pub Cancellation : Type 0 → Type 0
Cancellation W = Option (W → Bool)

module _ {W : Type 0} where
  unfoldable pub after : {A B : Type 0} → (A → Op W B) → Reply A × Members W → Reply B × Members W
  after f (done a, m) = f a m
  after f (threw e, m) = (threw e, m)

  infixl 5 ◌>>=◌
  unfoldable pub ◌>>=◌ : {A B : Type 0} → Op W A → (A → Op W B) → Op W B
  unfolding after
  (op >>= f) m = after f (op m)

  unfoldable pub give : {A : Type 0} → A → Op W A
  give a m = (done a, m)

  unfoldable pub throw : {A : Type 0} → Error → Op W A
  throw e m = (threw e, m)

  unfoldable pub require : Error → Bool → Op W Nothing
  unfolding give throw
  require e test = if test then give nothing else throw e

  unfoldable pub get : Op W (Members W)
  get m = (done m, m)

  unfoldable pub outside : {A : Type 0} → Call W A → Op W A
  outside call m = let (r, w) = call m.world in (r, record m { world = w })

-- The failure of an operation that came too late, or was cancelled: `Failure(0, true)`.
abbrev pub cancelled_failure : Error
cancelled_failure = failure 0 true
