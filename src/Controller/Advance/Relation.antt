-- ===== src/Controller/Advance/Relation.antt =====
-- The invariant, the relation between the members before and after an operation, and the lemmas on
-- the steps that all operations share.
use msime_linux.Base.{
  List, [], ◌∷◌, ℕ, ◌+◌, ◌≤◌, ◌<◌, ◌≡◌, refl, sym, ◌∙◌, ◌⊎◌, inl, inr, Bool, true, false, arith,
  is_empty, length, Bool-cases, if◌then◌else◌,
}
use msime_linux.Controller.Types.{Engine, KeyResult, Result}
use msime_linux.Controller.State.{
  Controller, Outcome, Step, returned, thrown, ◌>>=◌, u64_max, renew, reset_highlight,
  finish_composition_mutation, conclude, of_key_result, finish_composition, invalidate_context,
}

-- The operation returned, and what it returned satisfies `P`.
abbrev pub Returns : {S W A : Type 0} → (A → Type 0) → Outcome S W A → Type 0
Returns P (returned a) = P a
Returns P (thrown c) = ⊥

pub nonempty_length {ℓ} : {A : Type ℓ} (xs : List A) → is_empty xs ≡ false → 0 < length xs
nonempty_length [] e = cc
nonempty_length (x ∷ xs) e = omega arith

pub bind-Returns :
    {S W A B : Type 0} (P : A → Type 0) (Q : B → Type 0) (m : Outcome S W A) (f : A → Outcome S W B)
    → Returns P m
    → ((a : A) → P a → Returns Q (f a))
    → Returns Q (m >>= f)
bind-Returns P Q (returned a) f h k = k a h
bind-Returns P Q (thrown c) f h k = absurd h

-- A branch on a computed test.
pub branch :
    {S W A : Type 0} (P : A → Type 0) (b : Bool) (x y : Outcome S W A)
    → (b ≡ true → Returns P x)
    → (b ≡ false → Returns P y)
    → Returns P (if b then x else y)
branch P true x y f g = f refl
branch P false x y f g = g refl

-- The library leaves the composition as it is when it answers that a call was not handled.
abbrev pub Keeps : {S W Q O : Type 0} → Engine S W Q O → S → KeyResult × S → Type 0
Keeps E s (r, s') = r.handled ≡ false → E.snapshot s' ≡ E.snapshot s

pub record IsQuiet {S W Q O : Type 0} (E : Engine S W Q O) : Type 0 where
  pub type_character : (s : S) (c : ℕ) (shift : Bool) → Keeps E s (E.type_character s c shift)
  pub type_plain : (s : S) (c : ℕ) → Keeps E s (E.type_plain s c)
  pub backspace : (s : S) → Keeps E s (E.backspace s)
  pub commit_raw : (s : S) → Keeps E s (E.commit_raw s)
  pub cancel : (s : S) → Keeps E s (E.cancel s)
  pub commit_candidate : (s : S) → Keeps E s (E.commit_candidate s)
  pub select : (s : S) (i : ℕ) → Keeps E s (E.select s i)
  pub select_first_han : (s : S) (i : ℕ) → Keeps E s (E.select_first_han s i)
  pub select_last_han : (s : S) (i : ℕ) → Keeps E s (E.select_last_han s i)
  pub finish : (s : S) (i : ℕ) → Keeps E s (E.finish s i)

module _ {S W Q O : Type 0} (E : Engine S W Q O) where
  -- The snapshot is the session's, the generation was drawn from the sequence, and the highlight
  -- stands on a candidate whenever there is one.
  pub record Inv (c : Controller S W) : Type 0 where
    pub coherent : c.snapshot ≡ E.snapshot c.session
    pub issued : c.online_generation ≤ c.sequence
    pub in_range :
        is_empty c.snapshot.candidates ≡ false
        → c.highlighted_candidate < length c.snapshot.candidates

  -- At most `k` numbers were drawn, and either the generation and the snapshot are as before, or
  -- the generation is one that had never been drawn.
  pub record Advances (k : ℕ) (c c' : Controller S W) : Type 0 where
    pub inv : Inv c'
    pub lower : c.sequence ≤ c'.sequence
    pub upper : c'.sequence ≤ c.sequence + k
    pub fresh :
        ((c'.online_generation ≡ c.online_generation) × (c'.snapshot ≡ c.snapshot))
        ⊎ (c.sequence < c'.online_generation)

  -- The same of an operation that also gives a result.
  abbrev pub Progress : ℕ → Controller S W → Result × Controller S W → Type 0
  Progress k c q = Advances k c q.1

  abbrev pub Room : ℕ → Controller S W → Type 0
  Room k c = c.sequence + k ≤ u64_max

module _ {S W Q O : Type 0} (E : Engine S W Q O) where
  pub Advances-refl : (k : ℕ) (c : Controller S W) → Inv E c → Advances E k c c
  Advances-refl k c v = record {
    inv = v;
    lower = omega arith;
    upper = omega arith;
    fresh = inl (refl, refl);
  }

  pub Advances-trans :
      (j k : ℕ) (a b c : Controller S W)
      → Advances E j a b
      → Advances E k b c
      → Advances E (j + k) a c
  Advances-trans j k a b c p q = record {
    inv = q.inv;
    lower = omega (arith, p.lower, q.lower);
    upper = omega (arith, p.upper, q.upper);
    fresh = join p.fresh q.fresh;
  }
    where
      join :
          ((b.online_generation ≡ a.online_generation) × (b.snapshot ≡ a.snapshot))
            ⊎ (a.sequence < b.online_generation)
          → ((c.online_generation ≡ b.online_generation) × (c.snapshot ≡ b.snapshot))
            ⊎ (b.sequence < c.online_generation)
          → ((c.online_generation ≡ a.online_generation) × (c.snapshot ≡ a.snapshot))
            ⊎ (a.sequence < c.online_generation)
      join (inl e) (inl f) = inl (f.0 ∙ e.0, f.1 ∙ e.1)
      join (inr l) (inl f) = inr (omega (arith, f.0))
      join _ (inr l) = inr (omega (arith, p.lower))

  pub Advances-weaken :
      (j k : ℕ) (a b : Controller S W) → j ≤ k → Advances E j a b → Advances E k a b
  Advances-weaken j k a b l p = record {
    inv = p.inv;
    lower = p.lower;
    upper = omega (arith, p.upper);
    fresh = p.fresh;
  }

  pub renew_lem :
      (c : Controller S W)
      → c.sequence < u64_max
      → renew c
        ≡ returned (record c { online_generation = c.sequence + 1; sequence = c.sequence + 1 })
  unfolding renew
  renew_lem c h = ground arith

  -- A step of the session that ends in `finish_composition_mutation`.
  pub mutation-Advances :
      (c : Controller S W) (r : Result) (s : S)
      → Inv E c
      → Room E 1 c
      → (r.handled ≡ false → E.snapshot s ≡ E.snapshot c.session)
      → Returns (Progress E 1 c) (finish_composition_mutation E r (record c { session = s }))
  unfolding finish_composition_mutation
  mutation-Advances c r s v room keep = elim (Bool-cases r.handled) [
    | inl h ↦
        rw (h, renew_lem (record c { session = s; snapshot = E.snapshot s }) (omega arith))
          (record {
            inv = record {
              coherent = refl;
              issued = omega arith;
              in_range = λ e. nonempty_length _ e;
            };
            lower = omega arith;
            upper = omega arith;
            fresh = inr (omega arith);
          })
    | inr h ↦ rw h (record {
      inv = record {
        coherent = refl;
        issued = v.issued;
        in_range = rw (keep h, ← v.coherent) v.in_range;
      };
      lower = omega arith;
      upper = omega arith;
      fresh = inl (refl, keep h ∙ sym v.coherent);
    })
  ]

  pub conclude-Advances :
      (c : Controller S W) (p : KeyResult × S)
      → Inv E c
      → Room E 1 c
      → Keeps E c.session p
      → Returns (Progress E 1 c) (conclude E c p)
  unfolding conclude
  conclude-Advances c (r, s) v room keep = mutation-Advances c (of_key_result r) s v room keep

  pub finish_composition-Advances :
      (quiet : IsQuiet E) (c : Controller S W)
      → Inv E c
      → Room E 1 c
      → Returns (Progress E 1 c) (finish_composition E c)
  unfolding finish_composition
  finish_composition-Advances quiet c v room =
      conclude-Advances c (E.finish c.session c.highlighted_candidate) v room
        (quiet.finish c.session c.highlighted_candidate)

-- Only the generation, the sequence and members that no request depends on change.
pub record Draws {S W : Type 0} (k : ℕ) (b d : Controller S W) : Type 0 where
  pub lower : b.sequence ≤ d.sequence
  pub upper : d.sequence ≤ b.sequence + k
  pub session : d.session ≡ b.session
  pub snapshot : d.snapshot ≡ b.snapshot
  pub highlighted : d.highlighted_candidate ≡ b.highlighted_candidate
  pub fresh : (d.online_generation ≡ b.online_generation) ⊎ (b.sequence < d.online_generation)
  pub issued : b.online_generation ≤ b.sequence → d.online_generation ≤ d.sequence

module _ {S W Q O : Type 0} (E : Engine S W Q O) where
  pub Draws-Advances : (k : ℕ) (b d : Controller S W) → Inv E b → Draws k b d → Advances E k b d
  Draws-Advances k b d v p = record {
    inv = record {
      coherent = rw (p.snapshot, p.session) v.coherent;
      issued = p.issued v.issued;
      in_range = rw (p.snapshot, p.highlighted) v.in_range;
    };
    lower = p.lower;
    upper = p.upper;
    fresh = elim p.fresh [ inl e ↦ inl (e, p.snapshot) | inr l ↦ inr l ];
  }

  -- An operation that only draws, after steps that advanced.
  pub Advances-draw :
      (j k : ℕ) (a b d : Controller S W) → Advances E j a b → Draws k b d → Advances E (j + k) a d
  Advances-draw j k a b d p q = Advances-trans E j k a b d p (Draws-Advances k b d p.inv q)

  -- The end of an operation that replaced the session: a new generation covers the change.
  pub renew-Advances :
      (j : ℕ) (a b : Controller S W)
      → b.snapshot ≡ E.snapshot b.session
      → a.sequence ≤ b.sequence
      → b.sequence ≤ a.sequence + j
      → Room E (j + 1) a
      → Returns (Advances E (j + 1) a) (renew (reset_highlight b))
  unfolding reset_highlight
  renew-Advances j a b coherent lower upper room =
      rw (renew_lem E (record b { highlighted_candidate = 0 }) (omega arith)) (record {
        inv = record {
          coherent = coherent;
          issued = omega arith;
          in_range = λ e. nonempty_length _ e;
        };
        lower = omega arith;
        upper = omega arith;
        fresh = inr (omega arith);
      })

  pub invalidate_context-Draws :
      (b : Controller S W) → Room E 1 b → Returns (Draws 1 b) (invalidate_context b)
  unfolding invalidate_context
  invalidate_context-Draws b room = ground arith

  -- An operation that finishes the composition first, and then replaces the session.
  pub then-Progress :
      (j k : ℕ) (c : Controller S W) (m : Step S W)
      (next : Controller S W → Outcome S W (Controller S W)) (answer : Result → Result)
      → Returns (Progress E j c) m
      → ((d : Controller S W) → Advances E j c d → Returns (Advances E k d) (next d))
      → Returns (Progress E (j + k) c) (m >>= λ q. next q.1 >>= λ d. returned (answer q.0, d))
  then-Progress j k c m next answer h step =
      bind-Returns (Progress E j c) (Progress E (j + k) c) m _ h λ q p.
        bind-Returns (Advances E k q.1) (Progress E (j + k) c) (next q.1) _ (step q.1 p)
          λ d a. Advances-trans E j k c q.1 d p a
