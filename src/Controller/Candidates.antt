-- ===== src/Controller/Candidates.antt =====
-- Selecting candidates and moving the highlight (src/InputController.cpp).
use msime_linux.Base.{ℕ, ◌-◌, Bool, not, ◌||◌, leb, ltb, if◌then◌else◌, is_empty, length, min}
use msime_linux.Controller.Types.{Engine, no_result, handled_result}
use msime_linux.Controller.State.{
  Controller, Step, returned, add_size, has_composition, page_start, conclude,
}

module _ {S W Q O : Type 0} (E : Engine S W Q O) where
  unfoldable pub select_candidate : ℕ → Controller S W → Step S W
  unfolding conclude
  select_candidate i c = conclude E c (E.select c.session i)

  unfoldable pub select_page_candidate : ℕ → Controller S W → Step S W
  unfolding select_candidate page_start
  select_page_candidate i c =
      if not (has_composition c) || leb c.options.page_size i
      then returned (no_result, c)
      else select_candidate (add_size (page_start c) i) c

  unfoldable pub commit_highlighted : Controller S W → Step S W
  unfolding conclude select_candidate
  commit_highlighted c =
      if not (has_composition c)
      then returned (no_result, c)
      else if is_empty c.snapshot.candidates
      then conclude E c (E.commit_candidate c.session)
      else select_candidate c.highlighted_candidate c

module _ {S W : Type 0} where
  unfoldable pub move_cursor : Bool → Controller S W → Step S W
  move_cursor forward c =
      if not (has_composition c) || is_empty c.snapshot.candidates
      then returned (no_result, c)
      else if forward
      then returned (
        handled_result,
        record c {
          highlighted_candidate =
              min (add_size c.highlighted_candidate 1) (length c.snapshot.candidates - 1);
        },
      )
      else if ltb 0 c.highlighted_candidate
      then returned
          (handled_result, record c { highlighted_candidate = c.highlighted_candidate - 1 })
      else returned (handled_result, c)

  unfoldable pub move_page : Bool → Controller S W → Step S W
  move_page forward c =
      if not (has_composition c) || is_empty c.snapshot.candidates
      then returned (no_result, c)
      else if forward
      then returned (
        handled_result,
        record c {
          highlighted_candidate =
              min (add_size c.highlighted_candidate c.options.page_size)
                (length c.snapshot.candidates - 1);
        },
      )
      else returned (
        handled_result,
        record c {
          highlighted_candidate =
              if ltb c.options.page_size c.highlighted_candidate
              then c.highlighted_candidate - c.options.page_size
              else 0;
        },
      )
