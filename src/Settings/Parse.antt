-- ===== src/Settings/Parse.antt =====
-- Reading what a user enters in the settings window (the helpers of src/SettingsUiModel.cpp).
use msime_linux.Base.{
  ℕ, ◌+◌, ◌*◌, ◌-◌, Bool, true, false, not, ◌&&◌, ◌||◌, Option, none, some, List, [], ◌∷◌, Bytes,
  bytes_eq, length, ltb, leb, ◌==◌, if◌then◌else◌, ◌≡◌, refl, arith,
}
use msime_linux.Settings.KeyFile.{ℤ, pos, negsuc}
use msime_linux.Settings.Valid.{
  Checks, is_member, is_forbidden, contains_nul, contains_forbidden, valid_utf8_text,
}
use msime_linux.Settings.Load.{then_read, natural_within}
use msime_linux.Base.{codes}

unfoldable pub parse_bool : Bytes → Option Bool
unfolding is_member
parse_bool value =
    if is_member value (codes "true" ∷ codes "1" ∷ codes "yes" ∷ [])
    then some true
    else if is_member value (codes "false" ∷ codes "0" ∷ codes "no" ∷ [])
    then some false
    else none

-- The digits that are left, after some digits of value `n`.
unfoldable pub parse_digits : ℕ → Bytes → Option ℕ
parse_digits n [] = some n
parse_digits n (c ∷ rest) =
    let later = parse_digits (n * 10 + (c - b'0')) rest in
    if leb b'0' c && leb c b'9' then later else none

unfoldable pub parse_decimal : Bytes → Option ℕ
unfolding parse_digits
parse_decimal [] = none
parse_decimal (c ∷ rest) = parse_digits 0 (c ∷ rest)

unfoldable pub negated : ℕ → Option ℤ
negated n =
    if n == 0 then some (pos 0) else if leb n 2147483648 then some (negsuc (n - 1)) else none

unfoldable pub positive : ℕ → Option ℤ
positive n = if leb n 2147483647 then some (pos n) else none

-- `std::from_chars` for an `int`, when it takes the whole text.
unfoldable pub from_chars : Bytes → Option ℤ
unfolding parse_decimal negated positive then_read
from_chars [] = none
from_chars (c ∷ rest) =
    if c == b'-'
    then then_read (parse_decimal rest) negated
    else then_read (parse_decimal (c ∷ rest)) positive

unfoldable pub parse_integer : ℕ → ℕ → Bytes → Option ℕ
unfolding from_chars natural_within then_read
parse_integer minimum maximum value = then_read (from_chars value) (natural_within minimum maximum)

-- The choice of a given name (`set_choice` and the chains of comparisons).
unfoldable pub choose : {A : Type 0} → List (Bytes × A) → Bytes → Option A
choose [] value = none
choose ((name, a) ∷ rest) value = if bytes_eq value name then some a else choose rest value

unfoldable pub is_refused : Bool → ℕ → Bool
is_refused allow_newlines c =
    c == 0
    || c == 0x7f
    || (ltb c 0x20 && not (allow_newlines && (c == 0x0a || c == 0x0d || c == 0x09)))

unfoldable pub contains_refused : Bool → Bytes → Bool
unfolding is_refused
contains_refused allow_newlines [] = false
contains_refused allow_newlines (c ∷ rest) =
    is_refused allow_newlines c || contains_refused allow_newlines rest

module _ (K : Checks) where
  unfoldable pub valid_text : ℕ → Bool → Bytes → Bool
  unfolding contains_refused
  valid_text maximum allow_newlines value =
      if ltb maximum (length value) || not (K.utf8_validate value)
      then false
      else not (contains_refused allow_newlines value)

is_refused-is_forbidden : (allow : Bool) (c : ℕ) → is_refused allow c ≡ is_forbidden allow c
unfolding is_refused is_forbidden
is_refused-is_forbidden allow c = ground arith

nul-is_forbidden : (allow : Bool) (c : ℕ) → (c == 0) ≡ true → is_forbidden allow c ≡ true
unfolding is_forbidden
nul-is_forbidden allow c h = ground (arith, h)

split_search : (z f x y : Bool) → (z ≡ true → f ≡ true) → (f || (x || y)) ≡ ((z || x) || (f || y))
split_search true true x y h = refl
split_search true false x y h = absurd (cc (h refl))
split_search false true true y h = refl
split_search false true false y h = refl
split_search false false x y h = refl

-- A byte that ends one search ends the other.
contains_refused_lem :
    (allow : Bool) (v : Bytes)
    → contains_refused allow v ≡ (contains_nul v || contains_forbidden allow v)
unfolding contains_refused contains_nul contains_forbidden
contains_refused_lem allow [] = refl
contains_refused_lem allow (c ∷ rest) =
    rw (contains_refused_lem allow rest, is_refused-is_forbidden allow c)
      (split_search (c == 0) (is_forbidden allow c) (contains_nul rest)
        (contains_forbidden allow rest) (nul-is_forbidden allow c))

checks_agree :
    (long nul bad utf8 : Bool)
    → (if long || not utf8 then false else not (nul || bad))
      ≡ (not (long || nul || not utf8) && not bad)
checks_agree true nul bad utf8 = refl
checks_agree false true bad true = refl
checks_agree false true bad false = refl
checks_agree false false bad true = refl
checks_agree false false bad false = refl

-- The settings window and the store accept the same texts, for every limit, with newlines or without.
pub valid_text-valid_utf8_text :
    (K : Checks) (maximum : ℕ) (newlines : Bool) (value : Bytes)
    → valid_text K maximum newlines value ≡ valid_utf8_text K maximum newlines value
unfolding valid_text valid_utf8_text
valid_text-valid_utf8_text K maximum newlines value = rw (contains_refused_lem newlines value) (
    checks_agree (ltb maximum (length value)) (contains_nul value)
      (contains_forbidden newlines value) (K.utf8_validate value))
