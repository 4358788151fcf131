-- ===== src/Controller/Actions.antt =====
-- Everything that a frontend can ask of the controller (the public operations of
-- src/InputController.h that change it), and a sequence of such requests.
use msime_linux.Base.{ℕ, ◌+◌, List, [], ◌∷◌, Bytes}
use msime_linux.Controller.Types.{
  Engine, Event, InputMode, PunctuationMode, PunctuationLock, CharacterWidth, Scheme,
}
use msime_linux.Controller.State.{Controller, Outcome, Step, returned, ◌>>=◌, invalidate_context}
use msime_linux.Controller.Candidates.{select_candidate, select_page_candidate}
use msime_linux.Controller.Modes.{
  set_mode, toggle_mode, set_punctuation_mode, toggle_punctuation_mode, set_punctuation_lock,
  set_character_width, toggle_character_width, toggle_dedicated_english_mode, switch_scheme, reset,
}
use msime_linux.Controller.Keys.{handle_key}
use msime_linux.Controller.Online.{apply_online_candidate}

-- `keys now e`: the event `e`, at the time `now`. `answers g q text o`: a candidate `text` from the
-- source `o` comes back for the request of generation `g` with the query `q`.
pub data Action (Q O : Type 0) : Type 0 where
  keys : ℕ → Event → Action Q O
  selects selects_on_page : ℕ → Action Q O
  sets_mode : InputMode → Action Q O
  toggles_mode : Action Q O
  sets_punctuation : PunctuationMode → Action Q O
  toggles_punctuation : Action Q O
  locks_punctuation : PunctuationLock → Action Q O
  sets_width : CharacterWidth → Action Q O
  toggles_width toggles_english : Action Q O
  switches_scheme : Scheme → Action Q O
  resets invalidates : Action Q O
  answers : ℕ → Q → Bytes → O → Action Q O

-- How many online answers come back in a sequence.
abbrev pub answers_in : {Q O : Type 0} → Action Q O → ℕ
answers_in (answers g q text o) = 1
answers_in _ = 0

abbrev pub total_answers : {Q O : Type 0} → List (Action Q O) → ℕ
total_answers [] = 0
total_answers (a ∷ later) = answers_in a + total_answers later

module _ {S W Q O : Type 0} (E : Engine S W Q O) where
  unfoldable pub members : Step S W → Outcome S W (Controller S W)
  members m = m >>= λ q. returned q.1

  unfoldable pub perform : Action Q O → Controller S W → Outcome S W (Controller S W)
  perform (keys now e) c = members (handle_key E now e c)
  perform (selects i) c = members (select_candidate E i c)
  perform (selects_on_page i) c = members (select_page_candidate E i c)
  perform (sets_mode m) c = members (set_mode E m c)
  perform toggles_mode c = members (toggle_mode E c)
  perform (sets_punctuation m) c = members (set_punctuation_mode m c)
  perform toggles_punctuation c = members (toggle_punctuation_mode c)
  perform (locks_punctuation l) c = set_punctuation_lock l c
  perform (sets_width w) c = members (set_character_width w c)
  perform toggles_width c = members (toggle_character_width c)
  perform toggles_english c = members (toggle_dedicated_english_mode E c)
  perform (switches_scheme s) c = members (switch_scheme E s c)
  perform resets c = reset E c
  perform invalidates c = invalidate_context c
  perform (answers g q text o) c = returned (apply_online_candidate E g q text o c).1

  unfoldable pub run : List (Action Q O) → Controller S W → Outcome S W (Controller S W)
  run [] c = returned c
  run (a ∷ later) c = perform a c >>= λ d. run later d
