-- ===== src/Settings/EditLemmas.antt =====
-- Lemmas on the chains of comparisons and the checks of an edit (src/SettingsUiModel.cpp).
use msime_linux.Base.{
  ℕ, Bool, true, false, not, ◌&&◌, ◌||◌, some, List, [], ◌∷◌, Bytes, bytes_eq, bytes_eq_iff, length,
  map, is_empty, starts_with, codes, ltb, leb, ◌≡◌, refl, sym, ap, subst, ◌∙◌, arith, if_intro,
  Bool-cases, inl, inr, all_of, part-all_of,
}
use Prim.Native.String.{String}
use text.Mathlib.Text.{◌==◌}
use text.Mathlib.TextEquality.{eq_iff}
use msime_linux.Settings.Valid.{
  Checks, within, is_member, valid_utf8_text, contains_nul, contains_forbidden,
  valid_https_endpoint,
}
use msime_linux.Settings.Stored.{is_ascii, ChecksLaws}
use msime_linux.Settings.Keeps.{then_read-within}
use msime_linux.Settings.Parse.{parse_integer, valid_text, valid_text-valid_utf8_text}
use msime_linux.Settings.Edit.{voice_providers, one_of, select, is_any}

either_holds : {P : Type 0} → (a b : Bool) → (a || b) ≡ true → (a ≡ true → P) → (b ≡ true → P) → P
either_holds true b h f g = f refl
either_holds false b h f g = g h

at_id : (P : String → Type 0) (id name : String) → (id == name) ≡ true → P name → P id
at_id P id name h p = subst P (sym ((eq_iff id name).0 h)) p

-- Each branch of a chain of comparisons has a property when its name is the one compared.
pub data Each {A : Type 0} (P : A → Type 0) (id : String) : List (String × A) → Type 0 where
  each_none : Each P id []
  each_one :
      {name : String}
      → {a : A} → {rest : List (String × A)} → ((id == name) ≡ true → P a)
      → Each P id rest
      → Each P id ((name, a) ∷ rest)

pub select-has :
    {A : Type 0}
    → (P : A → Type 0) (l : List (String × A)) (id : String) (otherwise : A) → Each P id l
    → P otherwise
    → P (select l id otherwise)
select-has P [] id otherwise each_none h = h
select-has P ((name, a) ∷ rest) id otherwise (each_one f fs) h =
    if_intro P (id == name) a (select rest id otherwise) f
      (λ b. select-has P rest id otherwise fs h)

-- What holds of each of some names holds of a name that is one of them.
pub data Named (P : String → Type 0) : List String → Type 0 where
  named_none : Named P []
  named_one :
      {name : String} → {names : List String} → P name → Named P names → Named P (name ∷ names)

pub is_any-has :
    (P : String → Type 0) (names : List String) (id : String)
    → Named P names
    → is_any names id ≡ true
    → P id
is_any-has P [] id named_none h = absurd (cc h)
is_any-has P (name ∷ names) id (named_one p ps) h =
    either_holds (id == name) (is_any names id) h (λ e. at_id P id name e p)
      (is_any-has P names id ps)

pub parse_integer-within :
    (low high n : ℕ) (v : Bytes) → parse_integer low high v ≡ some n → within low high n ≡ true
unfolding parse_integer
parse_integer-within low high n v h = then_read-within _ low high n h

pub one_of-is_member :
    (names : List Bytes) (v a : Bytes) → one_of names v ≡ some a → is_member a names ≡ true
unfolding one_of
one_of-is_member names v a h = elim (Bool-cases (is_member v names)) [
  | inl yes' ↦ ground (arith, h, yes')
  | inr no' ↦ absurd (ground (arith, h, no'))
]

-- A property of all the names is one of a member.
pub member-has :
    (P : Bytes → Bool) (names : List Bytes) (v : Bytes)
    → all_of (map P names) ≡ true
    → is_member v names ≡ true
    → P v ≡ true
unfolding is_member all_of
member-has P [] v h m = absurd (cc m)
member-has P (n ∷ names) v h m =
    either_holds (bytes_eq v n) (is_member v names) m
      (λ e. ap P ((bytes_eq_iff v n).0 e) ∙ part-all_of (P n ∷ map P names) 0 h)
      (λ e. member-has P names v (rest_of (P n) _ h) e)
  where
    rest_of : (a b : Bool) → (a && b) ≡ true → b ≡ true
    rest_of a b h = ground (arith, h)

-- The conditions of a text that was accepted.
pub text_within :
    (K : Checks) (maximum : ℕ) (newlines other : Bool) (v : Bytes)
    → (valid_text K maximum newlines v && other) ≡ true
    → valid_utf8_text K maximum newlines v ≡ true
text_within K maximum newlines other v h =
    sym (valid_text-valid_utf8_text K maximum newlines v) ∙ first_of _ other h
  where
    first_of : (a b : Bool) → (a && b) ≡ true → a ≡ true
    first_of a b h = ground (arith, h)

endpoint_checks :
    (empty text https : Bool) (n : ℕ) (rest : Bool)
    → text ≡ (not (ltb 2048 n || rest) && text)
    → (text && (false || empty || https)) ≡ true
    → (empty || (leb n 2048 && https && text)) ≡ true
endpoint_checks true text https n rest e h = refl
endpoint_checks false text https n rest e h = ground (arith, e, h)

pub endpoint_within :
    (K : Checks) (v : Bytes)
    → (valid_text K 2048 false v && (false || is_empty v || starts_with v (codes "https://")))
      ≡ true
    → valid_https_endpoint K v ≡ true
unfolding valid_https_endpoint valid_utf8_text
endpoint_within K v h =
    endpoint_checks (is_empty v) (valid_utf8_text K 2048 false v) (starts_with v (codes "https://"))
      (length v) (contains_nul v || not (K.utf8_validate v))
      (within_length (ltb 2048 (length v)) (contains_nul v) (not (K.utf8_validate v))
        (not (contains_forbidden false v)))
      (rw⁻¹ (valid_text-valid_utf8_text K 2048 false v) h)
  where
    within_length :
        (a b c d : Bool)
        → (not (a || b || c) && d) ≡ (not (a || (b || c)) && (not (a || b || c) && d))
    within_length a b c d = ground arith

pub first_of : (a b : Bool) → (a && b) ≡ true → a ≡ true
first_of a b h = ground (arith, h)

pub second_of : (a b : Bool) → (a && b) ≡ true → b ≡ true
second_of a b h = ground (arith, h)

abbrev voice_name : Checks → Bytes → Bool
voice_name K v = valid_utf8_text K 64 false v && not (is_empty v)

pub voice_provider_name :
    (K : Checks) (v : Bytes)
    → ChecksLaws K
    → is_member v voice_providers ≡ true
    → voice_name K v ≡ true
unfolding valid_utf8_text all_of is_ascii
voice_provider_name K v laws m = member-has (voice_name K) voice_providers v named m
  where
    named : all_of (map (voice_name K) voice_providers) ≡ true
    named =
        rw
          (
            laws.ascii_is_utf8 (codes "openai") refl,
            laws.ascii_is_utf8 (codes "siliconflow") refl,
            laws.ascii_is_utf8 (codes "groq") refl,
            laws.ascii_is_utf8 (codes "custom") refl,
          )
          refl

pub not-false : (a : Bool) → not a ≡ false → a ≡ true
not-false a h = ground (arith, h)

pub needed : (empty : Bool) → (empty && true) ≡ false → not empty ≡ true
needed empty h = ground (arith, h)

pub voice_needed :
    (empty on : Bool)
    → (empty && ((true && on) || (false && on))) ≡ false
    → (not on || not empty) ≡ true
voice_needed empty on h = ground (arith, h)

pub polish_needed : (empty on : Bool) → (empty && on) ≡ false → (not on || not empty) ≡ true
polish_needed empty on h = ground (arith, h)
