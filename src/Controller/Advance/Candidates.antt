-- ===== src/Controller/Advance/Candidates.antt =====
-- Selecting and moving: the highlight stays on a candidate.
use msime_linux.Base.{
  ℕ, ◌-◌, ◌<◌, ◌≡◌, refl, inl, inr, Bool, true, false, arith, Bool-cases, if◌then◌else◌, not, ◌||◌,
  is_empty, length, min, leb, ltb,
}
use msime_linux.Controller.Types.{Engine}
use msime_linux.Controller.State.{Controller, has_composition, page_start, add_size}
use msime_linux.Controller.Candidates.{
  select_candidate, select_page_candidate, commit_highlighted, move_cursor, move_page,
}
use msime_linux.Controller.Advance.Relation.{
  Returns, IsQuiet, Inv, Advances, Room, Progress, Advances-refl, conclude-Advances,
  nonempty_length,
}

module _ {S W Q O : Type 0} (E : Engine S W Q O) where
  -- Moving the highlight to a place within the list.
  highlight-Advances :
      (c : Controller S W) (h : ℕ)
      → Inv E c
      → (is_empty c.snapshot.candidates ≡ false → h < length c.snapshot.candidates)
      → Advances E 1 c (record c { highlighted_candidate = h })
  highlight-Advances c h v within = record {
    inv = record { coherent = v.coherent; issued = v.issued; in_range = within };
    lower = omega arith;
    upper = omega arith;
    fresh = inl (refl, refl);
  }

  pub select_candidate-Progress :
      (quiet : IsQuiet E) (i : ℕ) (c : Controller S W)
      → Inv E c
      → Room E 1 c
      → Returns (Progress E 1 c) (select_candidate E i c)
  unfolding select_candidate
  select_candidate-Progress quiet i c v room =
      conclude-Advances E c (E.select c.session i) v room (quiet.select c.session i)

  pub select_page_candidate-Progress :
      (quiet : IsQuiet E) (i : ℕ) (c : Controller S W)
      → Inv E c
      → Room E 1 c
      → Returns (Progress E 1 c) (select_page_candidate E i c)
  unfolding select_page_candidate
  select_page_candidate-Progress quiet i c v room =
      elim (Bool-cases (not (has_composition c) || leb c.options.page_size i)) [
        | inl h ↦ rw h (Advances-refl E 1 c v)
        | inr h ↦ rw h (select_candidate-Progress quiet (add_size (page_start c) i) c v room)
      ]

  pub commit_highlighted-Progress :
      (quiet : IsQuiet E) (c : Controller S W)
      → Inv E c
      → Room E 1 c
      → Returns (Progress E 1 c) (commit_highlighted E c)
  unfolding commit_highlighted
  commit_highlighted-Progress quiet c v room = elim (Bool-cases (has_composition c)) [
    | inr h ↦ rw h (Advances-refl E 1 c v)
    | inl h ↦ elim (Bool-cases (is_empty c.snapshot.candidates)) [
      | inl e ↦
          rw (h, e)
            (conclude-Advances E c (E.commit_candidate c.session) v room
              (quiet.commit_candidate c.session))
      | inr e ↦ rw (h, e) (select_candidate-Progress quiet c.highlighted_candidate c v room)
    ]
  ]

  -- The place before the end to which a step forward leads.
  forward_within :
      (c : Controller S W) (target : ℕ)
      → is_empty c.snapshot.candidates ≡ false
      → min target (length c.snapshot.candidates - 1) < length c.snapshot.candidates
  forward_within c target e = omega (arith, nonempty_length c.snapshot.candidates e)

  pub move_cursor-Progress :
      (forward : Bool) (c : Controller S W)
      → Inv E c
      → Returns (Progress E 1 c) (move_cursor forward c)
  unfolding move_cursor
  move_cursor-Progress true c v =
      elim (Bool-cases (not (has_composition c) || is_empty c.snapshot.candidates)) [
        | inl h ↦ rw h (Advances-refl E 1 c v)
        | inr h ↦
            rw h (highlight-Advances c _ v (forward_within c (add_size c.highlighted_candidate 1)))
      ]
  move_cursor-Progress false c v =
      elim (Bool-cases (not (has_composition c) || is_empty c.snapshot.candidates)) [
        | inl h ↦ rw h (Advances-refl E 1 c v)
        | inr h ↦ elim (Bool-cases (ltb 0 c.highlighted_candidate)) [
          | inl l ↦ rw (h, l) (highlight-Advances c _ v (λ e. omega (arith, v.in_range e)))
          | inr l ↦ rw (h, l) (Advances-refl E 1 c v)
        ]
      ]

  pub move_page-Progress :
      (forward : Bool) (c : Controller S W)
      → Inv E c
      → Returns (Progress E 1 c) (move_page forward c)
  unfolding move_page
  move_page-Progress true c v =
      elim (Bool-cases (not (has_composition c) || is_empty c.snapshot.candidates)) [
        | inl h ↦ rw h (Advances-refl E 1 c v)
        | inr h ↦ rw h (
            highlight-Advances c _ v
              (forward_within c (add_size c.highlighted_candidate c.options.page_size)))
      ]
  move_page-Progress false c v =
      elim (Bool-cases (not (has_composition c) || is_empty c.snapshot.candidates)) [
        | inl h ↦ rw h (Advances-refl E 1 c v)
        | inr h ↦ rw h (highlight-Advances c _ v (λ e. back_within c (v.in_range e)))
      ]
    where
      back_within :
          (d : Controller S W)
          → d.highlighted_candidate < length d.snapshot.candidates
          → (if ltb d.options.page_size d.highlighted_candidate
              then d.highlighted_candidate - d.options.page_size
              else 0)
            < length d.snapshot.candidates
      back_within d l = ground arith
