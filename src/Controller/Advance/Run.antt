-- ===== src/Controller/Advance/Run.antt =====
-- Sequences of operations of the frontend (the public operations of src/InputController.h).
use msime_linux.Base.{ℕ, suc, ◌+◌, ◌*◌, ◌≤◌, arith, length, List, [], ◌∷◌}
use msime_linux.Controller.Types.{Engine, PunctuationLock}
use msime_linux.Controller.State.{Controller, Outcome, Step, returned, thrown}
use msime_linux.Controller.Modes.{
  toggle_mode, toggle_punctuation_mode, set_punctuation_lock, toggle_character_width,
}
use msime_linux.Controller.Actions.{
  Action, keys, selects, selects_on_page, sets_mode, toggles_mode, sets_punctuation,
  toggles_punctuation, locks_punctuation, sets_width, toggles_width, toggles_english,
  switches_scheme, resets, invalidates, answers, answers_in, total_answers, members, perform, run,
}
use msime_linux.Controller.Advance.Relation.{
  Returns, bind-Returns, IsQuiet, Inv, Advances, Room, Progress, Advances-refl, Advances-weaken,
  Draws, Draws-Advances, invalidate_context-Draws,
}
use msime_linux.Controller.Advance.Candidates.{
  select_candidate-Progress, select_page_candidate-Progress,
}
use msime_linux.Controller.Advance.Modes.{
  set_punctuation_mode-Draws, set_character_width-Draws, apply_punctuation_lock-Draws,
  set_mode-Progress, toggle_dedicated_english_mode-Progress, switch_scheme-Progress, reset-Advances,
}
use msime_linux.Controller.Advance.Keys.{handle_key-Progress}
use msime_linux.Controller.Advance.Answers.{
  RefusalKeeps, Proceeds, Advances-Proceeds, Proceeds-weaken, Proceeds-trans,
  apply_online_candidate-Proceeds,
}

module _ {S W Q O : Type 0} (E : Engine S W Q O) where
  members-Advances :
      (k : ℕ) (c : Controller S W) (m : Step S W)
      → k ≤ 3
      → Returns (Progress E k c) m
      → Returns (Advances E 3 c) (members E m)
  unfolding members
  members-Advances k c (returned q) l p = Advances-weaken E k 3 c q.1 l p
  members-Advances k c (thrown d) l p = p

  members-Draws :
      (c : Controller S W) (m : Step S W)
      → Inv E c
      → Returns (λ q. Draws 1 c q.1) m
      → Returns (Advances E 3 c) (members E m)
  unfolding members
  members-Draws c (returned q) v p =
      Advances-weaken E 1 3 c q.1 (omega arith) (Draws-Advances E 1 c q.1 v p)
  members-Draws c (thrown d) v p = p

  weakened :
      (k : ℕ) (c : Controller S W) (m : Outcome S W (Controller S W))
      → k ≤ 3
      → Returns (Advances E k c) m
      → Returns (Advances E 3 c) m
  weakened k c (returned d) l p = Advances-weaken E k 3 c d l p
  weakened k c (thrown d) l p = p

  drawn_only :
      (c : Controller S W) (m : Outcome S W (Controller S W))
      → Inv E c
      → Returns (Draws 1 c) m
      → Returns (Advances E 3 c) m
  drawn_only c (returned d) v p =
      Advances-weaken E 1 3 c d (omega arith) (Draws-Advances E 1 c d v p)
  drawn_only c (thrown d) v p = p

  relocked :
      (l : PunctuationLock) (c d : Controller S W)
      → Draws 1 (record c { punctuation_lock = l }) d
      → Draws 1 c d
  relocked l c d p = record {
    lower = p.lower;
    upper = p.upper;
    session = p.session;
    snapshot = p.snapshot;
    highlighted = p.highlighted;
    fresh = p.fresh;
    issued = p.issued;
  }

  relocked_only :
      (l : PunctuationLock) (c : Controller S W) (m : Outcome S W (Controller S W))
      → Returns (Draws 1 (record c { punctuation_lock = l })) m
      → Returns (Draws 1 c) m
  relocked_only l c (returned d) p = relocked l c d p
  relocked_only l c (thrown d) p = p

  proceeding :
      (c : Controller S W) (m : Outcome S W (Controller S W))
      → Returns (Advances E 3 c) m
      → Returns (Proceeds E 3 0 c) m
  proceeding c (returned d) p = Advances-Proceeds E 3 0 c d p
  proceeding c (thrown d) p = p

  perform-Proceeds :
      (quiet : IsQuiet E) (keeps : RefusalKeeps E) (a : Action Q O) (c : Controller S W)
      → Inv E c
      → Room E 3 c
      → Returns (Proceeds E 3 (answers_in a) c) (perform E a c)
  unfolding perform toggle_mode toggle_punctuation_mode toggle_character_width set_punctuation_lock
  perform-Proceeds quiet keeps (keys now e) c v room =
      proceeding c _
        (members-Advances 2 c _ (omega arith) (handle_key-Progress E quiet now e c v (omega arith)))
  perform-Proceeds quiet keeps (selects i) c v room =
      proceeding c _ (
        members-Advances 1 c _ (omega arith)
          (select_candidate-Progress E quiet i c v (omega arith)))
  perform-Proceeds quiet keeps (selects_on_page i) c v room = proceeding c _ (
      members-Advances 1 c _ (omega arith)
        (select_page_candidate-Progress E quiet i c v (omega arith)))
  perform-Proceeds quiet keeps (sets_mode m) c v room =
      proceeding c _ (members-Advances 3 c _ (omega arith) (set_mode-Progress E quiet m c v room))
  perform-Proceeds quiet keeps toggles_mode c v room =
      proceeding c _ (members-Advances 3 c _ (omega arith) (set_mode-Progress E quiet _ c v room))
  perform-Proceeds quiet keeps (sets_punctuation m) c v room =
      proceeding c _ (members-Draws c _ v (set_punctuation_mode-Draws E m c (omega arith)))
  perform-Proceeds quiet keeps toggles_punctuation c v room =
      proceeding c _ (members-Draws c _ v (set_punctuation_mode-Draws E _ c (omega arith)))
  perform-Proceeds quiet keeps (locks_punctuation l) c v room = proceeding c _ (
      drawn_only c _ v (
        relocked_only l c _
          (apply_punctuation_lock-Draws E (record c { punctuation_lock = l }) (omega arith))))
  perform-Proceeds quiet keeps (sets_width w) c v room =
      proceeding c _ (members-Draws c _ v (set_character_width-Draws E w c (omega arith)))
  perform-Proceeds quiet keeps toggles_width c v room =
      proceeding c _ (members-Draws c _ v (set_character_width-Draws E _ c (omega arith)))
  perform-Proceeds quiet keeps toggles_english c v room = proceeding c _ (
      members-Advances 2 c _ (omega arith)
        (toggle_dedicated_english_mode-Progress E quiet c v (omega arith)))
  perform-Proceeds quiet keeps (switches_scheme s) c v room =
      proceeding c _
        (members-Advances 2 c _ (omega arith) (switch_scheme-Progress E quiet s c v (omega arith)))
  perform-Proceeds quiet keeps resets c v room =
      proceeding c _ (weakened 2 c _ (omega arith) (reset-Advances E quiet c v (omega arith)))
  perform-Proceeds quiet keeps invalidates c v room =
      proceeding c _ (drawn_only c _ v (invalidate_context-Draws E c (omega arith)))
  perform-Proceeds quiet keeps (answers g q text o) c v room =
      Proceeds-weaken E 0 3 1 c _ (omega arith)
        (apply_online_candidate-Proceeds E keeps g q text o c v)

  -- Over a session library that leaves the composition alone whenever it reports a call as not
  -- handled or an online candidate as refused, and from every state that keeps the invariant and has
  -- `3 * n` numbers of the sequence left, any sequence of `n` operations of the frontend, online
  -- answers for any request among them, returns. It draws at most `3 * n` numbers and keeps the
  -- invariant (the snapshot is the session's, the generation was drawn, and the highlight stands on
  -- a candidate whenever there is one). If the generation is as before, so is the snapshot, but for
  -- answers that the library accepted, one for each answer of the sequence at most (so it is the
  -- same where no answer came back), and otherwise the generation is one that had never been drawn.
  pub run-Proceeds :
      (quiet : IsQuiet E) (keeps : RefusalKeeps E) (later : List (Action Q O)) (c : Controller S W)
      → Inv E c
      → Room E (3 * length later) c
      → Returns (Proceeds E (3 * length later) (total_answers later) c) (run E later c)
  unfolding run
  run-Proceeds quiet keeps [] c v room = Advances-Proceeds E 0 0 c c (Advances-refl E 0 c v)
  run-Proceeds quiet keeps (a ∷ later) c v room =
      bind-Returns (Proceeds E 3 (answers_in a) c)
        (Proceeds E (3 * suc (length later)) (answers_in a + total_answers later) c) (perform E a c)
        _ (perform-Proceeds quiet keeps a c v (omega arith))
        λ d p.
          then_rest d p (run E later d)
            (run-Proceeds quiet keeps later d p.inv (omega (arith, p.upper)))
    where
      then_rest :
          (d : Controller S W)
          → Proceeds E 3 (answers_in a) c d
          → (m : Outcome S W (Controller S W))
          → Returns (Proceeds E (3 * length later) (total_answers later) d) m
          → Returns (Proceeds E (3 * suc (length later)) (answers_in a + total_answers later) c) m
      then_rest d p (returned b) q =
          Proceeds-weaken E (3 + 3 * length later) (3 * suc (length later))
            (answers_in a + total_answers later) c b (omega arith)
            (Proceeds-trans E 3 (3 * length later) (answers_in a) (total_answers later) c d b p q)
      then_rest d p (thrown b) q = q
