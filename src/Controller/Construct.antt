-- ===== src/Controller/Construct.antt =====
-- The constructor of the controller (src/InputController.cpp). The session that the composition
-- library makes for the scheme and the options is given; `sequence` is the shared counter.
use msime_linux.Base.{
  some, ℕ, ◌+◌, ◌<◌, ◌≤◌, Bool, true, false, not, ◌||◌, [], Bytes, ◌==◌, if◌then◌else◌, ◌≡◌, refl,
  arith,
}
use msime_linux.Text.Formatter.{initial_formatter}
use msime_linux.Controller.Types.{
  InputMode, PunctuationMode, PunctuationLock, CharacterWidth, Engine,
}
use msime_linux.Controller.State.{Options, Controller, u64_max}
use msime_linux.Controller.Online.{OnlineRequest, online_request, apply_online_candidate}
use msime_linux.Controller.Advance.Relation.{Inv, nonempty_length}
use msime_linux.Controller.Stale.{generation_of_request, refuse_other_generation}

-- The controller, or the exception, with the counter as it is then.
pub data Construction (S W : Type 0) : Type 0 where
  built : Controller S W → Construction S W
  used_up page_size_zero unsupported : ℕ → Construction S W

module _ {S W Q O : Type 0} (E : Engine S W Q O) (supports : Bytes → Bool) where
  -- The members after the initializers, which draw a generation.
  abbrev pub initialized : S → Options → PunctuationMode → CharacterWidth → ℕ → Controller S W
  initialized session options punctuation width sequence = record {
    session = session;
    snapshot = E.snapshot session;
    options = options;
    mode = InputMode.ime;
    highlighted_candidate = 0;
    punctuation_mode = punctuation;
    punctuation_lock = PunctuationLock.follow;
    character_width = width;
    history_active = false;
    history_key = 0;
    history_time = 0;
    pending_paired_closings = [];
    punctuation_formatter = initial_formatter;
    online_generation = sequence + 1;
    sequence = sequence + 1;
  }

  unfoldable pub construct : S → Options → PunctuationMode → CharacterWidth → ℕ → Construction S W
  construct session options punctuation width sequence =
      if sequence == u64_max
      then used_up sequence
      else if options.page_size == 0
      then page_size_zero (sequence + 1)
      else if not (supports options.quanpin_helpcode_schema)
          || not (supports options.shuangpin_helpcode_schema)
      then unsupported (sequence + 1)
      else built (initialized session options punctuation width sequence)

  initialized-Inv :
      (session : S) (options : Options) (punctuation : PunctuationMode) (width : CharacterWidth)
      (sequence : ℕ)
      → Inv E (initialized session options punctuation width sequence)
  initialized-Inv session options punctuation width sequence = record {
    coherent = refl;
    issued = omega arith;
    in_range = λ h. nonempty_length _ h;
  }

  construct-built :
      (session : S) (options : Options) (punctuation : PunctuationMode) (width : CharacterWidth)
      (sequence : ℕ)
      → sequence < u64_max
      → 0 < options.page_size
      → supports options.quanpin_helpcode_schema ≡ true
      → supports options.shuangpin_helpcode_schema ≡ true
      → construct session options punctuation width sequence
        ≡ built (initialized session options punctuation width sequence)
  unfolding construct
  construct-built session options punctuation width sequence room paged quanpin shuangpin =
      ground (arith, room, paged, quanpin, shuangpin)

  -- A controller that is built while an answer is on its way to another one, with options that the
  -- constructor takes and a number of the sequence left, is made, keeps the invariant, and refuses
  -- the answer, whatever controllers have drawn from the sequence since the request; the refusal
  -- changes nothing.
  pub rebuilt_controller_refuses :
      (c : Controller S W) (r : OnlineRequest Q) (text : Bytes) (o : O) (session : S)
      (options : Options) (punctuation : PunctuationMode) (width : CharacterWidth) (sequence : ℕ)
      → Inv E c
      → online_request E c ≡ some r
      → c.sequence ≤ sequence
      → sequence < u64_max
      → 0 < options.page_size
      → supports options.quanpin_helpcode_schema ≡ true
      → supports options.shuangpin_helpcode_schema ≡ true
      → (d : Controller S W) × (construct session options punctuation width sequence ≡ built d)
        × Inv E d
        × (apply_online_candidate E r.generation r.query text o d ≡ (false, d))
  rebuilt_controller_refuses c r text o session options punctuation width sequence v asked later
        room paged quanpin shuangpin =
      (
        initialized session options punctuation width sequence,
        construct-built session options punctuation width sequence room paged quanpin shuangpin,
        initialized-Inv session options punctuation width sequence,
        refuse_other_generation E r.generation r.query text o _ (λ same.
            absurd (omega (arith, same, later, generation_of_request E c r asked, v.issued))),
      )
