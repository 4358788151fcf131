-- ===== src/Controller/Advance/Punctuation.antt =====
-- Committing punctuation finishes the composition once, and otherwise touches neither the session
-- nor the generation.
use msime_linux.Base.{ℕ, ◌+◌, inl, inr, Bool, arith, Bool-cases, Option, Bytes, is_empty, not, ◌||◌}
use msime_linux.Text.Formatter
use msime_linux.Text.Formatter.{Formatter}
use msime_linux.Text.Width.{to_full_width}
use msime_linux.Controller.Types.{Engine, Result, is_full}
use msime_linux.Controller.State.{
  Controller, has_composition, clear_smart_punctuation_history, finish_composition,
}
use msime_linux.Controller.Punctuation.{
  commit_mark, commit_paired, place_punctuation, replace_recent, commit_full_width,
  commit_punctuation, choose_punctuation, effective_preceding, can_replace_recent_ascii,
}
use msime_linux.Controller.Advance.Relation.{
  Returns, bind-Returns, IsQuiet, Inv, Advances, Room, Progress, Advances-refl, Advances-draw,
  Advances-weaken, Draws, finish_composition-Advances,
}

module _ {S W : Type 0} where
  -- None of the members that a request depends on changes.
  abbrev Leaves : Controller S W → Result × Controller S W → Type 0
  Leaves c q = Draws 0 c q.1

  commit_mark-Leaves :
      (r : Result) (mark : Bytes) (smart : Bool) (ascii now : ℕ) (c : Controller S W)
      → Leaves c (commit_mark r mark smart ascii now c)
  unfolding commit_mark clear_smart_punctuation_history
  commit_mark-Leaves r mark smart ascii now c = ground arith

  commit_paired-Leaves :
      (r : Result) (mark : Bytes) (smart : Bool) (ascii now : ℕ) (c : Controller S W)
      → Leaves c (commit_paired r mark smart ascii now c)
  unfolding commit_paired commit_mark clear_smart_punctuation_history
  commit_paired-Leaves r mark smart ascii now c = ground arith

  place_punctuation-Leaves :
      (r : Result) (had : Bool) (ascii : ℕ) (before : Option ℕ) (now : ℕ) (c : Controller S W)
      → Leaves c (place_punctuation r had ascii before now c)
  unfolding place_punctuation commit_paired commit_mark clear_smart_punctuation_history
  place_punctuation-Leaves r had ascii before now c =
      let (mark, f) = choose_punctuation c had ascii before in ground arith

  reformatted :
      (c : Controller S W) (f : Formatter) (d : Controller S W)
      → Draws 0 (record (clear_smart_punctuation_history c) { punctuation_formatter = f }) d
      → Draws 0 c d
  unfolding clear_smart_punctuation_history
  reformatted c f d p = record {
    lower = p.lower;
    upper = p.upper;
    session = p.session;
    snapshot = p.snapshot;
    highlighted = p.highlighted;
    fresh = p.fresh;
    issued = p.issued;
  }

  replace_recent-Leaves :
      (r : Result) (had : Bool) (ascii : ℕ) (before : Option ℕ) (now : ℕ) (c : Controller S W)
      → Leaves c (replace_recent r had ascii before now c)
  unfolding replace_recent
  replace_recent-Leaves r had ascii before now c =
      let mark = (Formatter.chinese c.punctuation_formatter ascii).0 in
      let f = (Formatter.chinese c.punctuation_formatter ascii).1 in
      let c' : Controller S W = record (clear_smart_punctuation_history c) {
        punctuation_formatter = f;
      } in
      elim (Bool-cases (is_empty mark)) [
        | inl h ↦ rw h (reformatted c f _ (place_punctuation-Leaves r had ascii before now c'))
        | inr h ↦ rw h (unfold clear_smart_punctuation_history in ground arith)
      ]

module _ {S W Q O : Type 0} (E : Engine S W Q O) where
  pub commit_full_width-Progress :
      (ascii : ℕ) (c : Controller S W)
      → Inv E c
      → Returns (Progress E 1 c) (commit_full_width ascii c)
  unfolding commit_full_width
  commit_full_width-Progress ascii c v =
      elim (Bool-cases (not (is_full c.character_width) || is_empty (to_full_width ascii))) [
        | inl h ↦ rw h (Advances-refl E 1 c v)
        | inr h ↦ rw h (Advances-refl E 1 c v)
      ]

  pub commit_punctuation-Progress :
      (quiet : IsQuiet E) (now ascii : ℕ) (preceding : Option ℕ) (c : Controller S W)
      → Inv E c
      → Room E 1 c
      → Returns (Progress E 1 c) (commit_punctuation E now ascii preceding c)
  unfolding commit_punctuation
  commit_punctuation-Progress quiet now ascii preceding c v room =
      bind-Returns (Progress E 1 c) (Progress E 1 c) (finish_composition E c) _
        (finish_composition-Advances E quiet c v room)
        (λ q p.
          elim (Bool-cases (
            can_replace_recent_ascii q.1 (has_composition c) ascii
              (effective_preceding q.0.commit preceding) now)) [
                | inl h ↦ rw h (left q p (replace_recent-Leaves _ _ _ _ _ q.1))
                | inr h ↦ rw h (left q p (place_punctuation-Leaves _ _ _ _ _ q.1))
              ])
    where
      left :
          (q : Result × Controller S W) {d : Controller S W}
          → Progress E 1 c q
          → Draws 0 q.1 d
          → Advances E 1 c d
      left q {d} p l =
          Advances-weaken E (1 + 0) 1 c d (omega arith) (Advances-draw E 1 0 c q.1 d p l)
