-- ===== src/Controller/Locks.antt =====
-- The punctuation lock: what the mode changes do to the punctuation.
use msime_linux.Base.{◌≡◌, refl, ◌∙◌, true, false, arith, if◌then◌else◌}
use msime_linux.Controller.Types.{
  Engine, KeyResult, InputMode, PunctuationMode, Result, same_mode, same_punctuation,
}
use msime_linux.Controller.State.{
  Controller, Outcome, returned, thrown, ◌>>=◌, renew, reset_highlight, conclude,
  finish_composition, clear_smart_punctuation_history,
}
use msime_linux.Controller.Modes.{
  set_punctuation_mode, locked_punctuation, apply_punctuation_lock, finish_if_direct, enter_mode,
  set_mode, toggle_mode,
}

-- If the operation returned, what it returned satisfies `P`.
abbrev IfReturned : {S W A : Type 0} → (A → Type 0) → Outcome S W A → Type 0
IfReturned P (returned a) = P a
IfReturned P (thrown c) = Unit {0}

bind-IfReturned :
    {S W A B : Type 0} (P : A → Type 0) (Q : B → Type 0) (m : Outcome S W A) (f : A → Outcome S W B)
    → IfReturned P m
    → ((a : A) → P a → IfReturned Q (f a))
    → IfReturned Q (m >>= f)
bind-IfReturned P Q (returned a) f h k = k a h
bind-IfReturned P Q (thrown c) f h k = tt

of_returned :
    {S W A : Type 0} (P : A → Type 0) (m : Outcome S W A) {a : A}
    → IfReturned P m
    → m ≡ returned a
    → P a
of_returned P m h e = rw e at h

same_punctuation_eq : (a b : PunctuationMode) → same_punctuation a b ≡ true → a ≡ b
same_punctuation_eq PunctuationMode.chinese PunctuationMode.chinese h = refl
same_punctuation_eq PunctuationMode.english PunctuationMode.english h = refl
same_punctuation_eq PunctuationMode.chinese PunctuationMode.english h = cc
same_punctuation_eq PunctuationMode.english PunctuationMode.chinese h = cc

module _ {S W : Type 0} where
  -- The mode and the lock stay.
  record Stays (c d : Controller S W) : Type 0 where
    mode : d.mode ≡ c.mode
    lock : d.punctuation_lock ≡ c.punctuation_lock

  renew-only :
      (c : Controller S W)
      → IfReturned
          (λ d.
            (d.mode ≡ c.mode)
            × (d.punctuation_lock ≡ c.punctuation_lock)
            × (d.punctuation_mode ≡ c.punctuation_mode))
          (renew c)
  unfolding renew
  renew-only c = ground arith

  set_punctuation_mode-only :
      (m : PunctuationMode) (c : Controller S W)
      → IfReturned
          (λ q.
            (q.1.mode ≡ c.mode)
            × (q.1.punctuation_lock ≡ c.punctuation_lock)
            × (q.1.punctuation_mode ≡ m))
          (set_punctuation_mode m c)
  unfolding set_punctuation_mode clear_smart_punctuation_history
  set_punctuation_mode-only m c = ground (arith, same_punctuation_eq c.punctuation_mode m)

-- The other mode.
abbrev pub flip : InputMode → InputMode
flip InputMode.ime = InputMode.direct
flip InputMode.direct = InputMode.ime

flip_lem :
    (m : InputMode)
    → (if same_mode m InputMode.ime then InputMode.direct else InputMode.ime) ≡ flip m
flip_lem InputMode.ime = refl
flip_lem InputMode.direct = refl

flip_differs : (m : InputMode) → same_mode m (flip m) ≡ false
flip_differs InputMode.ime = refl
flip_differs InputMode.direct = refl

flip-flip : (m : InputMode) → flip (flip m) ≡ m
flip-flip InputMode.ime = refl
flip-flip InputMode.direct = refl

module _ {S W Q O : Type 0} (E : Engine S W Q O) where
  conclude-Stays :
      (c : Controller S W) (p : KeyResult × S) → IfReturned (λ q. Stays c q.1) (conclude E c p)
  unfolding conclude
  conclude-Stays c (r, s) = ground arith

  finish_if_direct-Stays :
      (m : InputMode) (c : Controller S W) → IfReturned (λ q. Stays c q.1) (finish_if_direct E m c)
  unfolding finish_if_direct finish_composition
  finish_if_direct-Stays InputMode.ime c = record { mode = refl; lock = refl }
  finish_if_direct-Stays InputMode.direct c = conclude-Stays c _

  abbrev Entered : InputMode → Controller S W → Controller S W → Type 0
  Entered m c d =
      (d.mode ≡ m)
      × (d.punctuation_lock ≡ c.punctuation_lock)
      × (d.punctuation_mode ≡ locked_punctuation c.punctuation_lock m)

  enter_mode-Entered :
      (m : InputMode) (c : Controller S W) → IfReturned (Entered m c) (enter_mode E m c)
  unfolding enter_mode apply_punctuation_lock reset_highlight
  enter_mode-Entered m c =
      let s : S = E.set_dedicated_english c.session false in
      let b : Controller S W = record c { session = s; snapshot = E.snapshot s; mode = m } in
      bind-IfReturned (Entered m c) (Entered m c) (apply_punctuation_lock b) _
        (bind-IfReturned (λ q. Entered m c q.1) (Entered m c)
          (set_punctuation_mode (locked_punctuation c.punctuation_lock m) b) _
          (set_punctuation_mode-only (locked_punctuation c.punctuation_lock m) b) (λ q p. p))
        (λ d p. renewed d p (renew (reset_highlight d)) (renew-only (reset_highlight d)))
    where
      renewed :
          (d : Controller S W)
          → Entered m c d
          → (o : Outcome S W (Controller S W))
          → IfReturned
              (λ e.
                (e.mode ≡ d.mode)
                × (e.punctuation_lock ≡ d.punctuation_lock)
                × (e.punctuation_mode ≡ d.punctuation_mode))
              o
          → IfReturned (Entered m c) o
      renewed d p (returned e) q = (q.0 ∙ p.0, q.1 ∙ p.1, q.2 ∙ p.2)
      renewed d p (thrown e) q = tt

  set_mode-Entered :
      (m : InputMode) (c : Controller S W)
      → same_mode c.mode m ≡ false
      → IfReturned (λ q. Entered m c q.1) (set_mode E m c)
  unfolding set_mode clear_smart_punctuation_history
  set_mode-Entered m c ne =
      let c0 : Controller S W = clear_smart_punctuation_history c in
      rw ne (
        bind-IfReturned (λ q. Stays c0 q.1) (λ q. Entered m c q.1) (finish_if_direct E m c0) _
          (finish_if_direct-Stays m c0)
          (λ q s.
            bind-IfReturned (Entered m q.1) (λ u. Entered m c u.1) (enter_mode E m q.1) _
              (enter_mode-Entered m q.1) (λ d p. (p.0, p.1 ∙ s.lock, rw s.lock at p.2))))

  toggle_mode-Entered :
      (c : Controller S W) → IfReturned (λ q. Entered (flip c.mode) c q.1) (toggle_mode E c)
  unfolding toggle_mode
  toggle_mode-Entered c =
      rw (flip_lem c.mode) (set_mode-Entered (flip c.mode) c (flip_differs c.mode))

  -- Whenever `toggle_mode` returns, the mode is the other one, the lock is as it was, and the
  -- punctuation is what the lock prescribes for the new mode, whatever it was before: the language's
  -- own punctuation under `follow`, and the locked one otherwise.
  pub toggle_mode_lem :
      (c d : Controller S W) (r : Result)
      → toggle_mode E c ≡ returned (r, d)
      → (d.mode ≡ flip c.mode)
        × (d.punctuation_lock ≡ c.punctuation_lock)
        × (d.punctuation_mode ≡ locked_punctuation c.punctuation_lock (flip c.mode))
  toggle_mode_lem c d r e =
      of_returned (λ q. Entered (flip c.mode) c q.1) (toggle_mode E c) (toggle_mode-Entered c) e

  -- Toggling the mode twice, if both calls return, brings the mode back, and leaves the punctuation
  -- that the lock prescribes for that mode.
  pub toggle_mode-toggle_mode :
      (c d e : Controller S W) (r r' : Result)
      → toggle_mode E c ≡ returned (r, d)
      → toggle_mode E d ≡ returned (r', e)
      → (e.mode ≡ c.mode)
        × (e.punctuation_lock ≡ c.punctuation_lock)
        × (e.punctuation_mode ≡ locked_punctuation c.punctuation_lock c.mode)
  toggle_mode-toggle_mode c d e r r' p q =
      let a = toggle_mode_lem c d r p in
      let b = toggle_mode_lem d e r' q in
      let back : flip d.mode ≡ c.mode = rw a.0 (flip-flip c.mode) in
      (b.0 ∙ back, b.1 ∙ a.1, b.2 ∙ rw (a.1, back))
