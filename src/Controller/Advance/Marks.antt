-- ===== src/Controller/Advance/Marks.antt =====
-- Letters, marks and the keys after the composition advance the controller.
use msime_linux.Base.{
  ℕ, ◌+◌, ◌-◌, ◌≡◌, refl, sym, ◌∙◌, inl, inr, Bool, true, false, arith, Bool-cases, Option, none,
  some, not, ◌||◌, ◌&&◌, leb, ◌==◌,
}
use msime_linux.Controller.Types.{Engine, Event, FrontendKey, is_inactive, is_temporary}
use msime_linux.Controller.State.{
  Controller, Step, returned, thrown, of_key_result, has_composition,
}
use msime_linux.Controller.Keys.{
  shifted_digit_symbol, is_bracket, paging_direction, page_key, handle_tail_key, handle_character,
  type_mark, page_or, handle_local_punctuation, select_edge, page_or_commit,
  handle_composing_punctuation, handle_punctuation,
}
use msime_linux.Controller.Advance.Relation.{
  Returns, branch, Keeps, IsQuiet, Inv, Advances, Room, Progress, Advances-refl, Advances-trans,
  Advances-weaken, conclude-Advances, mutation-Advances,
}
use msime_linux.Controller.Advance.Candidates.{select_page_candidate-Progress, move_page-Progress}
use msime_linux.Controller.Advance.Punctuation.{
  commit_full_width-Progress, commit_punctuation-Progress,
}

or_left : (a b : Bool) → (a || b) ≡ false → a ≡ false
or_left true b h = h
or_left false b h = refl

module _ {S W Q O : Type 0} (E : Engine S W Q O) (quiet : IsQuiet E) where
  pub handle_tail_key-Progress :
      (k : FrontendKey) (now : ℕ) (e : Event) (c : Controller S W)
      → Inv E c
      → Room E 1 c
      → Returns (Progress E 1 c) (handle_tail_key E k now e c)
  unfolding handle_tail_key
  handle_tail_key-Progress FrontendKey.character now e c v room =
      commit_full_width-Progress E e.character c v
  handle_tail_key-Progress FrontendKey.punctuation now e c v room =
      commit_punctuation-Progress E quiet now e.character e.preceding_character c v room
  handle_tail_key-Progress FrontendKey.space now e c v room = commit_full_width-Progress E b' ' c v
  handle_tail_key-Progress FrontendKey.digit now e c v room = elim (Bool-cases (leb e.digit 9)) [
    | inl h ↦ rw h (commit_full_width-Progress E (b'0' + e.digit) c v)
    | inr h ↦ rw h (Advances-refl E 1 c v)
  ]
  handle_tail_key-Progress _ now e c v room = Advances-refl E 1 c v

  -- The session answered that it did not handle a call: the controller goes on with the session
  -- that the call left.
  unhandled-Advances :
      (c : Controller S W) (s : S)
      → Inv E c
      → E.snapshot s ≡ E.snapshot c.session
      → Advances E 0 c (record c { session = s })
  unhandled-Advances c s v keep = record {
    inv = record { coherent = v.coherent ∙ sym keep; issued = v.issued; in_range = v.in_range };
    lower = omega arith;
    upper = omega arith;
    fresh = inl (refl, refl);
  }

  -- What is proved of the rest of the operation then holds of the whole.
  after_unhandled :
      (c : Controller S W) (s : S) (m : Step S W)
      → Inv E c
      → E.snapshot s ≡ E.snapshot c.session
      → Returns (Progress E 1 (record c { session = s })) m
      → Returns (Progress E 1 c) m
  after_unhandled c s (returned q) v keep p =
      Advances-weaken E (0 + 1) 1 c q.1 (omega arith)
        (Advances-trans E 0 1 c _ q.1 (unhandled-Advances c s v keep) p)
  after_unhandled c s (thrown d) v keep p = p

  pub handle_character-Progress :
      (now : ℕ) (e : Event) (c : Controller S W)
      → Inv E c
      → Room E 1 c
      → Returns (Progress E 1 c) (handle_character E now e c)
  unfolding handle_character
  handle_character-Progress now e c v room =
      let r = (E.type_character c.session e.character e.shift_only).0 in
      let s = (E.type_character c.session e.character e.shift_only).1 in
      let keep = quiet.type_character c.session e.character e.shift_only in
      branch (Progress E 1 c) (r.handled || has_composition c) _ _
        (λ h. mutation-Advances E c (of_key_result r) s v room keep)
        (λ h.
          let kept = keep (or_left r.handled (has_composition c) h) in
          after_unhandled c s _ v kept (
            handle_tail_key-Progress FrontendKey.character now e (record c { session = s })
              (unhandled-Advances c s v kept).inv room))

  type_mark-Progress :
      (now : ℕ) (e : Event) (c : Controller S W)
      → Inv E c
      → Room E 1 c
      → Returns (Progress E 1 c) (type_mark E now e c)
  unfolding type_mark
  type_mark-Progress now e c v room =
      let r = (E.type_character c.session e.character e.shift_only).0 in
      let s = (E.type_character c.session e.character e.shift_only).1 in
      let keep = quiet.type_character c.session e.character e.shift_only in
      branch (Progress E 1 c) r.handled _ _
        (λ h. mutation-Advances E c (of_key_result r) s v room keep)
        (λ h. after_unhandled c s _ v (keep h) (
          commit_punctuation-Progress E quiet now e.character e.preceding_character
            (record c { session = s }) (unhandled-Advances c s v (keep h)).inv room))

  page_or-Progress :
      (d : Option Bool) (c : Controller S W) (rest : Step S W)
      → Inv E c
      → Returns (Progress E 1 c) rest
      → Returns (Progress E 1 c) (page_or E d c rest)
  unfolding page_or
  page_or-Progress none c rest v p = p
  page_or-Progress (some forward) c rest v p = move_page-Progress E forward c v

  handle_local_punctuation-Progress :
      (now : ℕ) (e : Event) (c : Controller S W)
      → Inv E c
      → Room E 1 c
      → Returns (Progress E 1 c) (handle_local_punctuation E now e c)
  unfolding handle_local_punctuation
  handle_local_punctuation-Progress now e c v room =
      let mark = type_mark-Progress now e c v room in
      elim (Bool-cases (e.shift_only && not (shifted_digit_symbol e.character == 0))) [
        | inl h ↦
            rw h (
              select_page_candidate-Progress E quiet (shifted_digit_symbol e.character - 1) c v
                room)
        | inr h ↦ elim (Bool-cases (is_temporary c.snapshot.local_mode && has_composition c)) [
          | inl k ↦
              rw (h, k)
                (page_or-Progress
                  (page_key c.options.bracket_paging c.options.comma_period_paging e.character) c _
                  v mark)
          | inr k ↦ rw (h, k) mark
        ]
      ]

  select_edge-Keeps : (ch : ℕ) (c : Controller S W) → Keeps E c.session (select_edge E ch c)
  unfolding select_edge
  select_edge-Keeps ch c = elim (Bool-cases (ch == b'[')) [
    | inl h ↦ rw h (quiet.select_first_han c.session c.highlighted_candidate)
    | inr h ↦ rw h (quiet.select_last_han c.session c.highlighted_candidate)
  ]

  page_or_commit-Progress :
      (now : ℕ) (e : Event) (c : Controller S W)
      → Inv E c
      → Room E 1 c
      → Returns (Progress E 1 c) (page_or_commit E now e c)
  unfolding page_or_commit
  page_or_commit-Progress now e c v room =
      page_or-Progress (paging_direction c.options.comma_period_paging e.character) c _ v
        (commit_punctuation-Progress E quiet now e.character e.preceding_character c v room)

  handle_composing_punctuation-Progress :
      (now : ℕ) (e : Event) (c : Controller S W)
      → Inv E c
      → Room E 1 c
      → Returns (Progress E 1 c) (handle_composing_punctuation E now e c)
  unfolding handle_composing_punctuation
  handle_composing_punctuation-Progress now e c v room =
      let r = (select_edge E e.character c).0 in
      let s = (select_edge E e.character c).1 in
      let keep = select_edge-Keeps e.character c in
      branch (Progress E 1 c) (c.options.bracket_paging && is_bracket e.character) _ _
        (λ h. move_page-Progress E (e.character == b']') c v)
        (λ h.
          branch (Progress E 1 c) (c.options.word_to_character && is_bracket e.character) _ _
            (λ k.
              branch (Progress E 1 c) r.handled _ _
                (λ l. mutation-Advances E c (of_key_result r) s v room keep)
                (λ l. after_unhandled c s _ v (keep l) (
                  page_or_commit-Progress now e (record c { session = s })
                    (unhandled-Advances c s v (keep l)).inv room)))
            (λ k. page_or_commit-Progress now e c v room))

  pub handle_punctuation-Progress :
      (now : ℕ) (e : Event) (c : Controller S W)
      → Inv E c
      → Room E 1 c
      → Returns (Progress E 1 c) (handle_punctuation E now e c)
  unfolding handle_punctuation
  handle_punctuation-Progress now e c v room =
      elim (Bool-cases (is_inactive c.snapshot.local_mode)) [
        | inr h ↦ rw h (handle_local_punctuation-Progress now e c v room)
        | inl h ↦ elim (Bool-cases (e.character == b'\'' && has_composition c)) [
          | inl k ↦
              rw (h, k)
                (conclude-Advances E c (E.type_plain c.session e.character) v room
                  (quiet.type_plain c.session e.character))
          | inr k ↦ elim (Bool-cases (has_composition c)) [
            | inl l ↦ rw (h, k, l) (handle_composing_punctuation-Progress now e c v room)
            | inr l ↦
                rw (h, k, l)
                  (commit_punctuation-Progress E quiet now e.character e.preceding_character c v
                    room)
          ]
        ]
      ]
