-- ===== src/Settings/Absent.antt =====
-- Applying changes that remove a credential and do not write it (src/SettingsStore.cpp).
use msime_linux.Base.{
  Bool, true, false, not, ◌&&◌, ◌||◌, Option, none, List, [], ◌∷◌, Bytes, ◌≡◌, ◌⊎◌, refl, sym, ap,
  ◌∙◌, if_intro, Bool-cases, inl, inr, arith,
}
use msime_linux.Settings.Secrets.{Entry, entry_eq, found, SecretStore, SecretLaws}
use msime_linux.Settings.Plan.{Pending, is_removed}
use msime_linux.Settings.Commit.{
  is_found, drop_needless, Applied, look_up_previous, apply_one, apply_all,
}
use msime_linux.Settings.Atomic.{entry_eq_lem}

unfoldable pub is_written : Entry → List Pending → Bool
is_written e [] = false
is_written e (q ∷ qs) = (not q.remove && entry_eq q.entry e) || is_written e qs

pub either_false : (a b : Bool) → (a || b) ≡ false → (a ≡ false) × (b ≡ false)
either_false a b h = (ground (arith, h), ground (arith, h))

later_removal : (r s l : Bool) → s ≡ false → ((r && s) || l) ≡ true → l ≡ true
later_removal r s l h k = ground (arith, h, k)

pub skip_first : (a b : Bool) → a ≡ false → (a || b) ≡ true → b ≡ true
skip_first a b h k = ground (arith, h, k)

found_is_needed : (r f : Bool) → (r && not f) ≡ true → f ≡ true → false ≡ true
found_is_needed r f h k = ground (arith, h, k)

module _ {X : Type 0} (V : SecretStore X) (held : X → Entry → Option Bytes)
    (laws : SecretLaws V held) where
  -- Applying one change that does not write the credential leaves it absent, if it was or if the
  -- change removes it.
  apply_one-absent :
      (x : X) (p : Pending) (e : Entry)
      → (apply_one V x p).0 ≡ true
      → (not p.remove && entry_eq p.entry e) ≡ false
      → (entry_eq p.entry e ≡ true) ⊎ (held x e ≡ none)
      → held (apply_one V x p).1 e ≡ none
  unfolding apply_one
  apply_one-absent x p e =
      if_intro Left p.remove (V.erase x p.entry) (V.store x p.entry p.value)
        (λ removes done quiet why. elim (Bool-cases (entry_eq p.entry e)) [
          | inl same ↦
              ap (held (V.erase x p.entry).1) (sym (entry_eq_lem p.entry e same))
              ∙ laws.erase_done x p.entry done
          | inr other ↦ laws.erase_other x p.entry e other ∙ absent other why
        ])
        (λ writes done quiet why.
          let other : entry_eq p.entry e ≡ false =
            not_written p.remove (entry_eq p.entry e) writes quiet in
          laws.store_other x p.entry e p.value other ∙ absent other why)
    where
      Left : Bool × X → Type 0
      Left r =
          r.0 ≡ true
          → (not p.remove && entry_eq p.entry e) ≡ false
          → (entry_eq p.entry e ≡ true) ⊎ (held x e ≡ none)
          → held r.1 e ≡ none

      absent :
          entry_eq p.entry e ≡ false
          → (entry_eq p.entry e ≡ true) ⊎ (held x e ≡ none)
          → held x e ≡ none
      absent other (inl same) = absurd (cc (other, same))
      absent other (inr h) = h

      not_written :
          (removes same : Bool) → removes ≡ false → (not removes && same) ≡ false → same ≡ false
      not_written removes same h q = ground (arith, h, q)

  pub apply_all-absent :
      (x : X) (done ps : List Pending) (e : Entry)
      → (apply_all V x done ps).all_applied ≡ true
      → is_written e ps ≡ false
      → (is_removed e ps ≡ true) ⊎ (held x e ≡ none)
      → held (apply_all V x done ps).secrets e ≡ none
  unfolding apply_all is_written is_removed
  apply_all-absent x done [] e ok quiet (inl h) = absurd (cc h)
  apply_all-absent x done [] e ok quiet (inr h) = h
  apply_all-absent x done (p ∷ ps) e ok quiet why =
      if_intro (λ (a : Applied X). a.all_applied ≡ true → held a.secrets e ≡ none)
        (apply_one V x p).0 (apply_all V (apply_one V x p).1 (p ∷ done) ps)
        (record { all_applied = false; secrets = (apply_one V x p).1; attempted = p ∷ done })
        (λ applied later.
          apply_all-absent (apply_one V x p).1 (p ∷ done) ps e later (either_false _ _ quiet).1
            (next applied (Bool-cases (entry_eq p.entry e)) why))
        (λ failed later. absurd (cc later)) ok
    where
      next :
          (apply_one V x p).0 ≡ true
          → (entry_eq p.entry e ≡ true) ⊎ (entry_eq p.entry e ≡ false)
          → (((p.remove && entry_eq p.entry e) || is_removed e ps) ≡ true) ⊎ (held x e ≡ none)
          → (is_removed e ps ≡ true) ⊎ (held (apply_one V x p).1 e ≡ none)
      next applied (inl same) h =
          inr (apply_one-absent x p e applied (either_false _ _ quiet).0 (inl same))
      next applied (inr other) (inl h) =
          inl (later_removal p.remove (entry_eq p.entry e) (is_removed e ps) other h)
      next applied (inr other) (inr h) =
          inr (apply_one-absent x p e applied (either_false _ _ quiet).0 (inr h))

  -- Dropping the needless removals writes nothing, and keeps the removal of what is there.
  pub drop_needless-is_written :
      (x : X) (ps : List Pending) (e : Entry)
      → is_written e ps ≡ false
      → is_written e (drop_needless (look_up_previous V x ps)) ≡ false
  unfolding drop_needless look_up_previous is_written
  drop_needless-is_written x [] e h = refl
  drop_needless-is_written x (p ∷ ps) e h =
      let both = either_false (not p.remove && entry_eq p.entry e) (is_written e ps) h in
      let rest = drop_needless-is_written x ps e both.1 in
      if_intro (λ (l : List Pending). is_written e l ≡ false)
        (p.remove && not (is_found (V.lookup x p.entry))) (drop_needless (look_up_previous V x ps))
        (record p { previous = V.lookup x p.entry } ∷ drop_needless (look_up_previous V x ps))
        (λ b. rest) (λ b. rw (both.0) rest)

  pub drop_needless-is_removed :
      (x : X) (ps : List Pending) (e : Entry) (v : Bytes)
      → V.lookup x e ≡ found v
      → is_removed e ps ≡ true
      → is_removed e (drop_needless (look_up_previous V x ps)) ≡ true
  unfolding drop_needless look_up_previous is_removed is_found
  drop_needless-is_removed x [] e v f h = absurd (cc h)
  drop_needless-is_removed x (p ∷ ps) e v f h =
      if_intro (λ (l : List Pending). is_removed e l ≡ true)
        (p.remove && not (is_found (V.lookup x p.entry))) (drop_needless (look_up_previous V x ps))
        (record p { previous = V.lookup x p.entry } ∷ drop_needless (look_up_previous V x ps))
        (λ needless. elim (Bool-cases (entry_eq p.entry e)) [
          | inl same ↦
              absurd (
                cc (found_is_needed p.remove (is_found (V.lookup x p.entry)) needless (there same)))
          | inr other ↦
              drop_needless-is_removed x ps e v f
                (later_removal p.remove (entry_eq p.entry e) (is_removed e ps) other h)
        ])
        (λ needed. elim (Bool-cases (p.remove && entry_eq p.entry e)) [
          | inl here ↦ rw here refl
          | inr no' ↦ rw no' (
              drop_needless-is_removed x ps e v f
                (skip_first (p.remove && entry_eq p.entry e) (is_removed e ps) no' h))
        ])
    where
      there : entry_eq p.entry e ≡ true → is_found (V.lookup x p.entry) ≡ true
      there same = ap (λ e'. is_found (V.lookup x e')) (entry_eq_lem p.entry e same) ∙ ap is_found f
