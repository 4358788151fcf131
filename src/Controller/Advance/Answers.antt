-- ===== src/Controller/Advance/Answers.antt =====
-- Applying an online answer (`apply_online_candidate` of src/InputController.cpp), and what a
-- sequence of operations, answers among them, leaves behind.
use msime_linux.Base.{
  ℕ, ◌+◌, ◌≤◌, ◌<◌, ◌≡◌, refl, sym, ◌∙◌, ◌⊎◌, inl, inr, true, false, arith, Bool-cases, ◌==◌,
  ==_iff, is_empty, length, List, [], ◌∷◌, Bytes, subst, not, ◌&&◌, if_intro,
}
use msime_linux.Controller.Types.{Engine, Snapshot}
use msime_linux.Controller.State.{Controller, refresh}
use msime_linux.Controller.Online.{clamp_highlight, apply_online_candidate}
use msime_linux.Controller.Advance.Relation.{Inv, Advances, Advances-refl, nonempty_length}

-- The library leaves the composition as it is when it refuses an online candidate.
abbrev pub RefusalKeeps : {S W Q O : Type 0} → Engine S W Q O → Type 0
RefusalKeeps {S} {W} {Q} {O} E =
    (s : S) (q : Q) (text : Bytes) (o : O)
    → (E.apply_online_candidate s q text o).0 ≡ false
    → E.snapshot (E.apply_online_candidate s q text o).1 ≡ E.snapshot s

nonempty_of_length {ℓ} : {A : Type ℓ} (xs : List A) → 0 < length xs → is_empty xs ≡ false
nonempty_of_length [] p = absurd (omega arith)
nonempty_of_length (x ∷ xs) p = refl

-- The second snapshot is the first, but for at most `n` answers that the library accepted one after
-- the other.
pub data Answered {S W Q O : Type 0} (E : Engine S W Q O) (a : Snapshot W)
    : ℕ → Snapshot W → Type 0 where
  unanswered : (n : ℕ) → Answered E a n a
  accepts :
      (m n : ℕ) (s : S) (q : Q) (text : Bytes) (o : O)
      → m < n
      → (E.apply_online_candidate s q text o).0 ≡ true
      → Answered E a m (E.snapshot s)
      → Answered E a n (E.snapshot (E.apply_online_candidate s q text o).1)

module _ {S W Q O : Type 0} (E : Engine S W Q O) where
  Answered-weaken : (a b : Snapshot W) (m n : ℕ) → m ≤ n → Answered E a m b → Answered E a n b
  Answered-weaken a b m n l (unanswered i) = unanswered n
  Answered-weaken a b m n l (accepts k i s q text o less e r) =
      accepts k n s q text o (omega arith) e r

  Answered-trans :
      (a b c : Snapshot W) (m n : ℕ) → Answered E a m b → Answered E b n c → Answered E a (m + n) c
  Answered-trans a b c m n p (unanswered i) = Answered-weaken a b m (m + n) (omega arith) p
  Answered-trans a b c m n p (accepts k i s q text o less e r) =
      accepts (m + k) (m + n) s q text o (omega arith) e (Answered-trans a b (E.snapshot s) m k p r)

  -- Without an accepted answer the snapshot is the same.
  Answered-zero : (a b : Snapshot W) → Answered E a 0 b → b ≡ a
  Answered-zero a b (unanswered i) = refl
  Answered-zero a b (accepts k i s q text o less e r) = absurd (omega arith)

  -- A part of the snapshot that accepted answers leave alone.
  pub Answered-keeps :
      {A : Type 0}
      → (part : Snapshot W → A)
      → ((s : S) (q : Q) (text : Bytes) (o : O)
          → (E.apply_online_candidate s q text o).0 ≡ true
          → part (E.snapshot (E.apply_online_candidate s q text o).1) ≡ part (E.snapshot s))
      → (a b : Snapshot W) (n : ℕ) → Answered E a n b
      → part b ≡ part a
  Answered-keeps part keeps a b n (unanswered i) = refl
  Answered-keeps part keeps a b n (accepts m i s q text o less k r) =
      keeps s q text o k ∙ Answered-keeps part keeps a (E.snapshot s) m r

  -- What a sequence of operations does: at most `k` numbers were drawn, and either the generation is
  -- as before and the snapshot too, but for at most `n` accepted answers, or the generation is one
  -- that had never been drawn.
  pub record Proceeds (k n : ℕ) (c c' : Controller S W) : Type 0 where
    pub inv : Inv E c'
    pub lower : c.sequence ≤ c'.sequence
    pub upper : c'.sequence ≤ c.sequence + k
    pub fresh :
        ((c'.online_generation ≡ c.online_generation) × Answered E c.snapshot n c'.snapshot)
        ⊎ (c.sequence < c'.online_generation)

module _ {S W Q O : Type 0} (E : Engine S W Q O) where
  pub Advances-Proceeds : (k n : ℕ) (c d : Controller S W) → Advances E k c d → Proceeds E k n c d
  Advances-Proceeds k n c d p = record {
    inv = p.inv;
    lower = p.lower;
    upper = p.upper;
    fresh = elim p.fresh [
      | inl e ↦ inl (e.0, subst (Answered E c.snapshot n) (sym e.1) (unanswered n))
      | inr l ↦ inr l
    ];
  }

  pub Proceeds-weaken :
      (j k n : ℕ) (c d : Controller S W) → j ≤ k → Proceeds E j n c d → Proceeds E k n c d
  Proceeds-weaken j k n c d l p = record {
    inv = p.inv;
    lower = p.lower;
    upper = omega (arith, p.upper);
    fresh = p.fresh;
  }

  pub Proceeds-trans :
      (j k m n : ℕ) (a b c : Controller S W)
      → Proceeds E j m a b
      → Proceeds E k n b c
      → Proceeds E (j + k) (m + n) a c
  Proceeds-trans j k m n a b c p q = record {
    inv = q.inv;
    lower = omega (arith, p.lower, q.lower);
    upper = omega (arith, p.upper, q.upper);
    fresh = join p.fresh q.fresh;
  }
    where
      join :
          ((b.online_generation ≡ a.online_generation) × Answered E a.snapshot m b.snapshot)
            ⊎ (a.sequence < b.online_generation)
          → ((c.online_generation ≡ b.online_generation) × Answered E b.snapshot n c.snapshot)
            ⊎ (b.sequence < c.online_generation)
          → ((c.online_generation ≡ a.online_generation) × Answered E a.snapshot (m + n) c.snapshot)
            ⊎ (a.sequence < c.online_generation)
      join (inl e) (inl f) = inl (f.0 ∙ e.0, Answered-trans E _ _ _ m n e.1 f.1)
      join (inr l) (inl f) = inr (omega (arith, f.0))
      join _ (inr l) = inr (omega (arith, p.lower))

  clamp_highlight-Inv :
      (n : ℕ) (c : Controller S W)
      → c.snapshot ≡ E.snapshot c.session
      → c.online_generation ≤ c.sequence
      → (0 < n → c.highlighted_candidate < n)
      → Inv E (clamp_highlight n c)
  unfolding clamp_highlight
  clamp_highlight-Inv n c coherent issued below =
      elim (Bool-cases (length c.snapshot.candidates == n)) [
        | inl h ↦ rw h (record {
          coherent = coherent;
          issued = issued;
          in_range = λ e. omega (arith, below, nonempty_length _ e, (==_iff _ n).0 h);
        })
        | inr h ↦ elim (Bool-cases (is_empty c.snapshot.candidates)) [
          | inl k ↦
              rw (h, k) (record { coherent = coherent; issued = issued; in_range = λ e. cc k })
          | inr k ↦
              rw (h, k)
                (record {
                  coherent = coherent;
                  issued = issued;
                  in_range = λ e. omega (arith, nonempty_length _ k);
                })
        ]
      ]

  clamp_highlight-members :
      (n : ℕ) (c : Controller S W)
      → let d = clamp_highlight n c in
        (d.sequence ≡ c.sequence)
        × (d.online_generation ≡ c.online_generation)
        × (d.snapshot ≡ c.snapshot)
  unfolding clamp_highlight
  clamp_highlight-members n c =
      if_intro
        (λ (d : Controller S W).
          (d.sequence ≡ c.sequence)
          × (d.online_generation ≡ c.online_generation)
          × (d.snapshot ≡ c.snapshot))
        (not (length c.snapshot.candidates == n) && not (is_empty c.snapshot.candidates)) _ _
        (λ b. (refl, refl, refl)) (λ b. (refl, refl, refl))

  answered-Proceeds :
      (q : Q) (text : Bytes) (o : O) (c : Controller S W)
      → (E.apply_online_candidate c.session q text o).0 ≡ true
      → Inv E c
      → Proceeds E 0 1 c (
          clamp_highlight
            (length c.snapshot.candidates)
            (refresh E (record c { session = (E.apply_online_candidate c.session q text o).1 })))
  unfolding refresh
  answered-Proceeds q text o c k v =
      let s = (E.apply_online_candidate c.session q text o).1 in
      let d : Controller S W = record c { session = s; snapshot = E.snapshot s } in
      let m = clamp_highlight-members (length c.snapshot.candidates) d in
      record {
        inv =
            clamp_highlight-Inv (length c.snapshot.candidates) d refl v.issued
              (λ p. v.in_range (nonempty_of_length c.snapshot.candidates p));
        lower = omega (arith, m.0);
        upper = omega (arith, m.0);
        fresh = inl (
          m.1,
          subst (Answered E c.snapshot 1) (sym m.2) (
              accepts 0 1 c.session q text o (omega arith) k
                (subst (Answered E c.snapshot 0) v.coherent (unanswered 0))),
        );
      }

  -- An answer, accepted or refused, draws nothing.
  pub apply_online_candidate-Proceeds :
      (keeps : RefusalKeeps E) (g : ℕ) (q : Q) (text : Bytes) (o : O) (c : Controller S W)
      → Inv E c
      → Proceeds E 0 1 c (apply_online_candidate E g q text o c).1
  unfolding apply_online_candidate
  apply_online_candidate-Proceeds keeps g q text o c v =
      elim (Bool-cases (g == c.online_generation)) [
        | inr h ↦ rw h (Advances-Proceeds 0 1 c c (Advances-refl E 0 c v))
        | inl h ↦
            let s = (E.apply_online_candidate c.session q text o).1 in
            elim (Bool-cases (E.apply_online_candidate c.session q text o).0) [
              | inr k ↦
                  rw (h, k)
                    (record {
                      inv = record {
                        coherent = v.coherent ∙ sym (keeps c.session q text o k);
                        issued = v.issued;
                        in_range = v.in_range;
                      };
                      lower = omega arith;
                      upper = omega arith;
                      fresh = inl (refl, unanswered 1);
                    })
              | inl k ↦ rw (h, k) (answered-Proceeds q text o c k v)
            ]
      ]
