-- ===== src/Controller/Answering.antt =====
-- The session library of Toy, with online answers: a session also holds the candidates that came
-- back for its composition, which stand behind its own, until the next key that it takes.
use msime_linux.Base.{
  ℕ, refl, ap, Bool, true, false, List, [], ◌∷◌, ◌++◌, if◌then◌else◌, Bytes, bytes_eq, Bool-cases,
  inl, inr,
}
use msime_linux.Controller.Types.{Engine, KeyResult, Snapshot}
use msime_linux.Controller.State.{Controller}
use msime_linux.Controller.Advance.Relation.{Keeps, IsQuiet}
use msime_linux.Controller.Advance.Answers.{RefusalKeeps}
use msime_linux.Controller.Stale.{AnswersKeep}
use msime_linux.Controller.Toy.{toy, toy-IsQuiet, toy_snapshot, composing}

abbrev pub Session : Type 0
Session = Bytes × List Bytes

abbrev with_answers : List Bytes → Snapshot Bytes → Snapshot Bytes
with_answers answers s = record s { candidates = s.candidates ++ answers }

abbrev take_key : Session → KeyResult × Bytes → KeyResult × Session
take_key (s, answers) (r, s') = (r, (s', if r.handled then [] else answers))

abbrev take_answer : Session → Bytes → Bytes → Bool × Session
take_answer (s, answers) q text =
    if bytes_eq q s then (true, (s, text ∷ [])) else (false, (s, answers))

abbrev pub answering : Engine Session Bytes Bytes ℕ
answering = record {
  snapshot = λ x. with_answers x.1 (toy.snapshot x.0);
  type_character = λ x c shift. take_key x (toy.type_character x.0 c shift);
  type_plain = λ x c. take_key x (toy.type_plain x.0 c);
  backspace = λ x. take_key x (toy.backspace x.0);
  commit_raw = λ x. take_key x (toy.commit_raw x.0);
  cancel = λ x. take_key x (toy.cancel x.0);
  commit_candidate = λ x. take_key x (toy.commit_candidate x.0);
  select = λ x i. take_key x (toy.select x.0 i);
  select_first_han = λ x i. take_key x (toy.select_first_han x.0 i);
  select_last_han = λ x i. take_key x (toy.select_last_han x.0 i);
  finish = λ x i. take_key x (toy.finish x.0 i);
  set_dedicated_english = λ x on. x;
  switch_scheme = λ x scheme. x;
  set_helpcode_enabled = λ x on. x;
  set_helpcode_schema = λ x schema. x;
  online_query = λ x. toy.online_query x.0;
  apply_online_candidate = λ x q text o. take_answer x q text;
}

take_key-Keeps :
    (x : Session) (p : KeyResult × Bytes) → Keeps toy x.0 p → Keeps answering x (take_key x p)
take_key-Keeps (s, answers) (r, s') keep h = rw h (ap (with_answers answers) (keep h))

pub answering-IsQuiet : IsQuiet answering
answering-IsQuiet = record {
  type_character = λ x c shift.
      take_key-Keeps x (toy.type_character x.0 c shift) (toy-IsQuiet.type_character x.0 c shift);
  type_plain = λ x c. take_key-Keeps x (toy.type_plain x.0 c) (toy-IsQuiet.type_plain x.0 c);
  backspace = λ x. take_key-Keeps x (toy.backspace x.0) (toy-IsQuiet.backspace x.0);
  commit_raw = λ x. take_key-Keeps x (toy.commit_raw x.0) (toy-IsQuiet.commit_raw x.0);
  cancel = λ x. take_key-Keeps x (toy.cancel x.0) (toy-IsQuiet.cancel x.0);
  commit_candidate =
      λ x. take_key-Keeps x (toy.commit_candidate x.0) (toy-IsQuiet.commit_candidate x.0);
  select = λ x i. take_key-Keeps x (toy.select x.0 i) (toy-IsQuiet.select x.0 i);
  select_first_han =
      λ x i. take_key-Keeps x (toy.select_first_han x.0 i) (toy-IsQuiet.select_first_han x.0 i);
  select_last_han =
      λ x i. take_key-Keeps x (toy.select_last_han x.0 i) (toy-IsQuiet.select_last_han x.0 i);
  finish = λ x i. take_key-Keeps x (toy.finish x.0 i) (toy-IsQuiet.finish x.0 i);
}

pub answering-RefusalKeeps : RefusalKeeps answering
answering-RefusalKeeps (s, answers) q text o h = elim (Bool-cases (bytes_eq q s)) [
  | inl e ↦ absurd (cc (rw e at h))
  | inr e ↦ rw e refl
]

-- Answers change the candidates and leave the preedit alone.
pub answering-AnswersKeep : AnswersKeep answering (λ s. s.preedit)
answering-AnswersKeep (s, answers) q text o h = elim (Bool-cases (bytes_eq q s)) [
  | inl e ↦ rw e refl
  | inr e ↦ rw e refl
]

-- A controller whose session has composed `s` and holds some answers.
abbrev pub composed : Bytes → List Bytes → Controller Session Bytes
composed s answers =
    let c = composing s in
    record {
      session = (s, answers);
      snapshot = with_answers answers (toy_snapshot s);
      options = c.options;
      mode = c.mode;
      highlighted_candidate = 0;
      punctuation_mode = c.punctuation_mode;
      punctuation_lock = c.punctuation_lock;
      character_width = c.character_width;
      history_active = false;
      history_key = 0;
      history_time = 0;
      pending_paired_closings = [];
      punctuation_formatter = c.punctuation_formatter;
      online_generation = 1;
      sequence = 1;
    }
