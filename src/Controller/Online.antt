-- ===== src/Controller/Online.antt =====
-- Online requests and the candidates that come back (src/InputController.cpp).
use msime_linux.Base.{
  ℕ, ◌-◌, Bool, true, false, not, ◌&&◌, Option, none, some, [], ◌==◌, if◌then◌else◌, is_empty,
  length, min, Bytes,
}
use msime_linux.Controller.Types.{
  Engine, PreeditStyle, raw, pinyin, hidden, Scheme, quanpin, shuangpin, Snapshot,
}
use msime_linux.Controller.State.{Controller, refresh}

pub record OnlineRequest (Q : Type 0) : Type 0 where
  pub generation : ℕ
  pub query : Q

module _ {S W : Type 0} where
  -- The highlight after the number of candidates changed.
  unfoldable pub clamp_highlight : ℕ → Controller S W → Controller S W
  clamp_highlight previous_count c =
      if not (length c.snapshot.candidates == previous_count)
        && not (is_empty c.snapshot.candidates)
      then record c {
        highlighted_candidate = min c.highlighted_candidate (length c.snapshot.candidates - 1);
      }
      else c

module _ {S W Q O : Type 0} (E : Engine S W Q O) where
  unfoldable pub online_request : Controller S W → Option (OnlineRequest Q)
  online_request c = elim (E.online_query c.session) [
    | none ↦ none
    | some q ↦ some (record { generation = c.online_generation; query = q })
  ]

  unfoldable pub apply_online_candidate : ℕ → Q → Bytes → O → Controller S W → Bool × Controller S W
  unfolding refresh clamp_highlight
  apply_online_candidate generation q candidate source c =
      if not (generation == c.online_generation)
      then (false, c)
      else (let (accepted, s) = E.apply_online_candidate c.session q candidate source in
          let c' : Controller S W = record c { session = s } in
          if not accepted
          then (false, c')
          else (true, clamp_highlight (length c.snapshot.candidates) (refresh E c')))

-- `InputController::preedit`.
unfoldable pub pinyin_preedit : {W : Type 0} → Scheme → Snapshot W → Bytes
pinyin_preedit quanpin s = s.raw_segmentation
pinyin_preedit shuangpin s = s.normalized_segmentation
pinyin_preedit (Scheme.other n) s = s.preedit

unfoldable pub shown_preedit : {W : Type 0} → PreeditStyle → Snapshot W → Bytes
unfolding pinyin_preedit
shown_preedit hidden s = []
shown_preedit raw s = s.preedit
shown_preedit pinyin s = pinyin_preedit s.scheme s
