-- ===== src/Controller/Toy.antt =====
-- A small session library to run the controller on: it composes lower-case letters, offers the
-- letters themselves as the candidates, and commits them as they are.
use msime_linux.Base.{
  ℕ, refl, true, false, ◌&&◌, Option, none, some, List, [], ◌∷◌, ◌++◌, arith, leb, if◌then◌else◌,
  Bytes, drop_last,
}
use msime_linux.Text.Formatter.{initial_formatter}
use msime_linux.Controller.Types.{
  Engine, KeyResult, Snapshot, quanpin, InputMode, PreeditStyle, PunctuationMode, follow,
  CharacterWidth, Event, FrontendKey, LocalMode,
}
use msime_linux.Controller.State.{Controller, Options}
use msime_linux.Controller.Advance.Relation.{Keeps, IsQuiet}

abbrev ignored : KeyResult
ignored = record { handled = false; commit = none; diagnostic = none }

abbrev accepted : Option Bytes → KeyResult
accepted commit = record { handled = true; commit = commit; diagnostic = none }

abbrev toy_candidates : Bytes → List Bytes
toy_candidates [] = []
toy_candidates (c ∷ cs) = (c ∷ cs) ∷ (c ∷ []) ∷ []

abbrev pub toy_snapshot : Bytes → Snapshot Bytes
toy_snapshot s = record {
  preedit = s;
  raw_segmentation = s;
  normalized_segmentation = s;
  candidates = toy_candidates s;
  scheme = quanpin;
  local_mode = LocalMode.inactive;
  dedicated_english = false;
}

abbrev toy_type : Bytes → ℕ → KeyResult × Bytes
toy_type s c = if leb b'a' c && leb c b'z' then (accepted none, s ++ c ∷ []) else (ignored, s)

abbrev toy_commit : Bytes → KeyResult × Bytes
toy_commit [] = (ignored, [])
toy_commit (c ∷ cs) = (accepted (some (c ∷ cs)), [])

abbrev toy_backspace : Bytes → KeyResult × Bytes
toy_backspace [] = (ignored, [])
toy_backspace (c ∷ cs) = (accepted none, drop_last (c ∷ cs))

abbrev toy_query : Bytes → Option Bytes
toy_query [] = none
toy_query (c ∷ cs) = some (c ∷ cs)

abbrev pub toy : Engine Bytes Bytes Bytes ℕ
toy = record {
  snapshot = toy_snapshot;
  type_character = λ s c shift. toy_type s c;
  type_plain = toy_type;
  backspace = toy_backspace;
  commit_raw = toy_commit;
  cancel = λ s. (accepted none, []);
  commit_candidate = toy_commit;
  select = λ s i. toy_commit s;
  select_first_han = λ s i. toy_commit s;
  select_last_han = λ s i. toy_commit s;
  finish = λ s i. toy_commit s;
  set_dedicated_english = λ s on. s;
  switch_scheme = λ s scheme. s;
  set_helpcode_enabled = λ s on. s;
  set_helpcode_schema = λ s schema. s;
  online_query = toy_query;
  apply_online_candidate = λ s q text o. (true, s);
}

toy_type-Keeps : (s : Bytes) (c : ℕ) → Keeps toy s (toy_type s c)
toy_type-Keeps s c = ground arith

toy_commit-Keeps : (s : Bytes) → Keeps toy s (toy_commit s)
toy_commit-Keeps [] h = refl
toy_commit-Keeps (c ∷ cs) h = cc

toy_backspace-Keeps : (s : Bytes) → Keeps toy s (toy_backspace s)
toy_backspace-Keeps [] h = refl
toy_backspace-Keeps (c ∷ cs) h = cc

pub toy-IsQuiet : IsQuiet toy
toy-IsQuiet = record {
  type_character = λ s c shift. toy_type-Keeps s c;
  type_plain = toy_type-Keeps;
  backspace = toy_backspace-Keeps;
  commit_raw = toy_commit-Keeps;
  cancel = λ s h. cc;
  commit_candidate = toy_commit-Keeps;
  select = λ s i. toy_commit-Keeps s;
  select_first_han = λ s i. toy_commit-Keeps s;
  select_last_han = λ s i. toy_commit-Keeps s;
  finish = λ s i. toy_commit-Keeps s;
}

abbrev pub options : Options
options = record {
  page_size = 9;
  comma_period_paging = false;
  word_to_character = false;
  bracket_paging = false;
  smart_punctuation = true;
  smart_punctuation_repeat_to_chinese = true;
  paired_punctuation = true;
  preedit_style = PreeditStyle.raw;
  quanpin_helpcode_enabled = true;
  quanpin_helpcode_schema = [];
  shuangpin_helpcode_enabled = true;
  shuangpin_helpcode_schema = [];
}

-- A controller whose session has composed `s`.
abbrev pub composing : Bytes → Controller Bytes Bytes
composing s = record {
  session = s;
  snapshot = toy_snapshot s;
  options = options;
  mode = InputMode.ime;
  highlighted_candidate = 0;
  punctuation_mode = PunctuationMode.chinese;
  punctuation_lock = follow;
  character_width = CharacterWidth.half;
  history_active = false;
  history_key = 0;
  history_time = 0;
  pending_paired_closings = [];
  punctuation_formatter = initial_formatter;
  online_generation = 1;
  sequence = 1;
}

abbrev pub key_event : FrontendKey → ℕ → Event
key_event k c = record {
  key = k;
  character = c;
  digit = 0;
  host_shortcut = false;
  preceding_character = none;
  shift_only = false;
}
