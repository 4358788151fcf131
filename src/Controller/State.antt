-- ===== src/Controller/State.antt =====
-- The controller's members, the generation counter, and the step that ends every change of the
-- composition (src/InputController.cpp). `next_online_generation` throws when the 64-bit sequence
-- is used up, so an operation returns, or throws and leaves the members as they are then.
use msime_linux.Base.{
  ℕ, ◌+◌, ◌-◌, ◌^◌, ◌%◌, ◌/◌, ◌*◌, Bool, false, not, List, [], Bytes, ◌==◌, if◌then◌else◌, is_empty,
}
use msime_linux.Text.Formatter
use msime_linux.Text.Formatter.{Formatter}
use msime_linux.Controller.Types.{
  InputMode, PreeditStyle, PunctuationMode, PunctuationLock, CharacterWidth, Result, Snapshot,
  Engine, KeyResult,
}

-- The members that the constructor sets and nothing changes.
pub record Options : Type 0 where
  pub page_size : ℕ
  pub comma_period_paging : Bool
  pub word_to_character : Bool
  pub bracket_paging : Bool
  pub smart_punctuation : Bool
  pub smart_punctuation_repeat_to_chinese : Bool
  pub paired_punctuation : Bool
  pub preedit_style : PreeditStyle
  pub quanpin_helpcode_enabled : Bool
  pub quanpin_helpcode_schema : Bytes
  pub shuangpin_helpcode_enabled : Bool
  pub shuangpin_helpcode_schema : Bytes

-- `sequence` is the counter that all controllers of the process share. Times are nanoseconds.
pub record Controller (S W : Type 0) : Type 0 where
  pub session : S
  pub snapshot : Snapshot W
  pub options : Options
  pub mode : InputMode
  pub highlighted_candidate : ℕ
  pub punctuation_mode : PunctuationMode
  pub punctuation_lock : PunctuationLock
  pub character_width : CharacterWidth
  pub history_active : Bool
  pub history_key : ℕ
  pub history_time : ℕ
  pub pending_paired_closings : List Bytes
  pub punctuation_formatter : Formatter
  pub online_generation : ℕ
  pub sequence : ℕ

pub data Outcome (S W A : Type 0) : Type 0 where
  returned : A → Outcome S W A
  thrown : Controller S W → Outcome S W A

infixl 5 ◌>>=◌
abbrev pub ◌>>=◌ : {S W A B : Type 0} → Outcome S W A → (A → Outcome S W B) → Outcome S W B
returned a >>= f = f a
thrown c >>= f = thrown c

-- What an operation gives: its result and the members after it.
abbrev pub Step : Type 0 → Type 0 → Type 0
Step S W = Outcome S W (Result × Controller S W)

abbrev pub u64_max : ℕ
u64_max = 2 ^ 64 - 1

-- `a + b` on `std::size_t`.
abbrev pub add_size : ℕ → ℕ → ℕ
add_size a b = (a + b) % 2 ^ 64

module _ {S W : Type 0} where
  unfoldable pub next_online_generation : Controller S W → Outcome S W (ℕ × Controller S W)
  next_online_generation c =
      if c.sequence == u64_max
      then thrown c
      else returned (c.sequence + 1, record c { sequence = c.sequence + 1 })

  -- `online_generation_ = next_online_generation();`
  unfoldable pub renew : Controller S W → Outcome S W (Controller S W)
  unfolding next_online_generation
  renew c = do (g, c') ← next_online_generation c; returned (record c' { online_generation = g })

  unfoldable pub clear_smart_punctuation_history : Controller S W → Controller S W
  clear_smart_punctuation_history c = record c {
    history_active = false;
    history_key = 0;
    history_time = 0;
  }

  unfoldable pub reset_highlight : Controller S W → Controller S W
  reset_highlight c = record c { highlighted_candidate = 0 }

  abbrev pub has_composition : Controller S W → Bool
  has_composition c = not (is_empty c.snapshot.preedit)

  unfoldable pub page_start : Controller S W → ℕ
  page_start c = c.highlighted_candidate / c.options.page_size * c.options.page_size

  unfoldable pub invalidate_context : Controller S W → Outcome S W (Controller S W)
  unfolding renew clear_smart_punctuation_history Formatter.reset
  invalidate_context c = renew (record (clear_smart_punctuation_history c) {
    pending_paired_closings = [];
    punctuation_formatter = Formatter.reset c.punctuation_formatter;
  })

-- `ControllerResult(KeyResult)`.
abbrev pub of_key_result : KeyResult → Result
of_key_result r = record {
  handled = r.handled;
  commit = r.commit;
  diagnostic = r.diagnostic;
  delete_before = 0;
  cursor_left = 0;
  cursor_right = 0;
}

module _ {S W Q O : Type 0} (E : Engine S W Q O) where
  -- `snapshot_ = session_.snapshot();`
  unfoldable pub refresh : Controller S W → Controller S W
  refresh c = record c { snapshot = E.snapshot c.session }

  unfoldable pub finish_composition_mutation : Result → Controller S W → Step S W
  unfolding refresh reset_highlight renew
  finish_composition_mutation r c =
      if r.handled
      then (do c' ← renew (refresh c); returned (r, reset_highlight c'))
      else returned (r, refresh c)

  -- The library's answer, and then `finish_composition_mutation` on it.
  unfoldable pub conclude : Controller S W → KeyResult × S → Step S W
  unfolding finish_composition_mutation
  conclude c (r, s) = finish_composition_mutation (of_key_result r) (record c { session = s })

  unfoldable pub finish_composition : Controller S W → Step S W
  unfolding conclude
  finish_composition c = conclude c (E.finish c.session c.highlighted_candidate)
