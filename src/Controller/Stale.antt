-- ===== src/Controller/Stale.antt =====
-- An online answer reaches the composition that it was asked for, or nothing.
use msime_linux.Base.{ℕ, ◌*◌, ◌≡◌, ◌≢◌, inl, inr, true, false, arith, some, length, List, Bytes}
use msime_linux.Controller.Types.{Engine, Snapshot}
use msime_linux.Controller.State.{Controller, returned}
use msime_linux.Controller.Online.{OnlineRequest, online_request, apply_online_candidate}
use msime_linux.Controller.Actions.{Action, total_answers, run}
use msime_linux.Controller.Advance.Relation.{IsQuiet, Inv, Room}
use msime_linux.Controller.Advance.Answers.{
  RefusalKeeps, Answered-keeps, Proceeds, apply_online_candidate-Proceeds,
}
use msime_linux.Controller.Advance.Run.{run-Proceeds}

-- A part of the snapshot that the library leaves alone when it accepts an online candidate.
abbrev pub AnswersKeep : {S W Q O A : Type 0} → Engine S W Q O → (Snapshot W → A) → Type 0
AnswersKeep {S} {W} {Q} {O} E part =
    (s : S) (q : Q) (text : Bytes) (o : O)
    → (E.apply_online_candidate s q text o).0 ≡ true
    → part (E.snapshot (E.apply_online_candidate s q text o).1) ≡ part (E.snapshot s)

module _ {S W Q O : Type 0} (E : Engine S W Q O) where
  pub refuse_other_generation :
      (g : ℕ) (q : Q) (text : Bytes) (o : O) (c : Controller S W)
      → g ≢ c.online_generation
      → apply_online_candidate E g q text o c ≡ (false, c)
  unfolding apply_online_candidate
  refuse_other_generation g q text o c ne = ground arith

  pub generation_of_request :
      (c : Controller S W) (r : OnlineRequest Q)
      → online_request E c ≡ some r
      → r.generation ≡ c.online_generation
  unfolding online_request
  generation_of_request c r e = ground arith

  -- Let a request be taken from a controller that keeps the invariant, over a session library that
  -- leaves the composition alone whenever it reports a call as not handled or an online candidate as
  -- refused, and let any sequence of `n` operations of the frontend follow, online answers for any
  -- request among them, for which `3 * n` numbers of the sequence were left. Let `part` be any part of
  -- the snapshot that the library leaves alone when it accepts an answer, as it may the preedit; the
  -- candidates are no such part. If that part is then not what it was, the answer to the request is
  -- refused, and the refusal changes nothing at all.
  pub late_answer_refused :
      (quiet : IsQuiet E) (keeps : RefusalKeeps E) {A : Type 0} (part : Snapshot W → A)
      → AnswersKeep E part
      → (later : List (Action Q O)) (c d : Controller S W) (r : OnlineRequest Q) (text : Bytes)
        (o : O)
      → Inv E c
      → Room E (3 * length later) c
      → online_request E c ≡ some r
      → run E later c ≡ returned d
      → part d.snapshot ≢ part c.snapshot
      → apply_online_candidate E r.generation r.query text o d ≡ (false, d)
  late_answer_refused quiet keeps part kept later c d r text o v room e ran ne =
      let p : Proceeds E (3 * length later) (total_answers later) c d =
        rw ran at (run-Proceeds E quiet keeps later c v room) in
      refuse_other_generation r.generation r.query text o d (elim p.fresh [
        | inl s ↦ absurd (ne (Answered-keeps E part kept c.snapshot d.snapshot _ s.1))
        | inr l ↦ λ same. absurd (omega (arith, generation_of_request c r e, v.issued))
      ])

  -- Applying an answer keeps the invariant, whether it is accepted or refused and however the list
  -- of candidates changes: the snapshot stays the session's, the generation stays a drawn one, and
  -- the highlight stays on a candidate.
  pub apply_online_candidate-Inv :
      (keeps : RefusalKeeps E) (g : ℕ) (q : Q) (text : Bytes) (o : O) (c : Controller S W)
      → Inv E c
      → Inv E (apply_online_candidate E g q text o c).1
  apply_online_candidate-Inv keeps g q text o c v =
      (apply_online_candidate-Proceeds E keeps g q text o c v).inv
