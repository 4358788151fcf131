-- ===== src/Controller/Tests.antt =====
-- The controller run on inputs of tests/InputControllerTests.cpp, and each theorem at an input.
use msime_linux.Base.{
  ℕ, ◌+◌, ◌≡◌, refl, true, false, none, some, List, [], ◌∷◌, arith, Bytes, bytes_eq,
}
use msime_linux.Text.Formatter
use msime_linux.Text.Formatter.{
  is_punctuation, should_keep_ascii_punctuation, paired_punctuation_closing, reset,
}
use msime_linux.Text.Pairs.{closer}
use msime_linux.Controller.Types.{
  FrontendKey, InputMode, PunctuationMode, CharacterWidth, no_result, handled_result,
}
use msime_linux.Controller.State.{
  Controller, returned, finish_composition_mutation, clear_smart_punctuation_history,
  finish_composition, conclude, refresh,
}
use msime_linux.Controller.Modes.{set_mode, toggle_mode, locked_punctuation}
use msime_linux.Controller.Punctuation.{place_punctuation, commit_punctuation, effective_preceding}
use msime_linux.Controller.Keys.{
  handle_key, dispatch_key, handle_ime_key, handle_character, forget_other_keys,
}
use msime_linux.Controller.Online.{
  OnlineRequest, online_request, clamp_highlight, apply_online_candidate,
}
use msime_linux.Controller.Actions.{Action, keys, answers, perform, run, members}
use msime_linux.Controller.Advance.Relation.{Inv, Returns, Progress}
use msime_linux.Controller.Advance.Answers.{Proceeds}
use msime_linux.Controller.Advance.Run.{run-Proceeds}
use msime_linux.Controller.Advance.Keys.{handle_key-Progress}
use msime_linux.Controller.Stale.{late_answer_refused, apply_online_candidate-Inv}
use msime_linux.Controller.Pairing.{round, type_over}
use msime_linux.Controller.Smart.Marks.{comma}
use msime_linux.Controller.Smart.{repeat_to_chinese, forget_other_keys_lem}
use msime_linux.Controller.Locks.{flip, toggle_mode_lem, toggle_mode-toggle_mode}
use msime_linux.Controller.Construct.{construct, built, rebuilt_controller_refuses}
use msime_linux.Controller.Toy.{options, toy, toy-IsQuiet, composing, key_event}
use msime_linux.Controller.Answering.{
  Session, answering, answering-IsQuiet, answering-RefusalKeeps, answering-AnswersKeep, composed,
}

composing-Inv : (s : Bytes) → Inv toy (composing s)
composing-Inv [] = record { coherent = refl; issued = omega arith; in_range = λ e. cc }
composing-Inv (c ∷ cs) = record {
  coherent = refl;
  issued = omega arith;
  in_range = λ e. omega arith;
}

abbrev typed : Bytes
typed = b'n' ∷ []

composed-Inv : (back : List Bytes) → Inv answering (composed typed back)
composed-Inv back = record { coherent = refl; issued = omega arith; in_range = λ e. omega arith }

-- "n" was typed and a request was made; an answer comes back and is accepted, and "i" follows.
abbrev then_i : List (Action Bytes ℕ)
then_i = answers 1 typed (b'N' ∷ []) 7 ∷ keys 0 (key_event FrontendKey.character b'i') ∷ []

abbrev after_i : Controller Session Bytes
after_i = record (composed (b'n' ∷ b'i' ∷ []) []) { online_generation = 2; sequence = 2 }

-- The answer changes the candidates and draws no generation.
accepted_answer_example :
    apply_online_candidate answering 1 typed (b'N' ∷ []) 7 (composed typed [])
    ≡ (true, composed typed ((b'N' ∷ []) ∷ []))
unfolding apply_online_candidate refresh clamp_highlight bytes_eq
accepted_answer_example = refl

run_example : run answering then_i (composed typed []) ≡ returned after_i
unfolding run perform members handle_key forget_other_keys dispatch_key handle_ime_key
    handle_character finish_composition_mutation clear_smart_punctuation_history
    apply_online_candidate refresh clamp_highlight bytes_eq
run_example = refl

abbrev request : OnlineRequest Bytes
request = record { generation = 1; query = typed }

request_example : online_request toy (composing typed) ≡ some request
unfolding online_request
request_example = refl

same_request_example : online_request answering (composed typed []) ≡ some request
unfolding online_request
same_request_example = refl

late_answer_refused_example :
    apply_online_candidate answering 1 typed (b'M' ∷ []) 7 after_i ≡ (false, after_i)
late_answer_refused_example =
    late_answer_refused answering answering-IsQuiet answering-RefusalKeeps (λ s. s.preedit)
      answering-AnswersKeep then_i (composed typed []) after_i request (b'M' ∷ []) 7
      (composed-Inv []) (omega arith) same_request_example run_example (λ e. cc)

run-Proceeds_example :
    Returns (Proceeds answering 6 1 (composed typed [])) (run answering then_i (composed typed []))
run-Proceeds_example =
    run-Proceeds answering answering-IsQuiet answering-RefusalKeeps then_i (composed typed [])
      (composed-Inv []) (omega arith)

-- The answer to another query, which the library refuses.
apply_online_candidate-Inv_example :
    Inv answering (apply_online_candidate answering 1 [] typed 7 (composed typed [])).1
apply_online_candidate-Inv_example =
    apply_online_candidate-Inv answering answering-RefusalKeeps 1 [] typed 7 (composed typed [])
      (composed-Inv [])

abbrev idle : Controller Bytes Bytes
idle = composing []

type_over_example :
    (place_punctuation no_result false
      (closer b'(')
      none
      5
      (place_punctuation no_result false b'(' none 5 idle).1).1
    ≡ clear_smart_punctuation_history idle
type_over_example =
    (type_over no_result no_result false false none none 5 5 idle round
      (record { paired = refl; mode = refl; width = refl })).3

-- The members after a comma.
abbrev after_comma : Controller Bytes Bytes
after_comma = record idle { history_active = true; history_key = b','; history_time = 0 }

idle_finished : finish_composition toy idle ≡ returned (no_result, idle)
unfolding finish_composition conclude finish_composition_mutation refresh
idle_finished = refl

-- A comma behind a letter, and the same comma a second later.
repeat_to_chinese_example :
    (commit_punctuation toy 0 b',' (some b'A') idle
      ≡ returned (record no_result { commit = some (b',' ∷ []); handled = true }, after_comma))
    × (commit_punctuation toy 1_000_000_000 b',' (some b',') after_comma
        ≡ returned (
          record no_result {
            handled = true;
            commit = some (Formatter.chinese Formatter.initial_formatter b',').0;
            delete_before = 1;
          },
          idle,
        ))
unfolding should_keep_ascii_punctuation effective_preceding refresh clear_smart_punctuation_history
    Formatter.chinese Formatter.fixed_mark
repeat_to_chinese_example =
    repeat_to_chinese toy no_result (some b'A') 0 1_000_000_000 idle idle none []
      (record { mode = refl; smart = refl; repeat = refl }) comma idle_finished refl refl refl
      (omega arith) refl refl

-- Another mark than the one that is remembered.
forget_other_keys_example :
    handle_key toy 1 (key_event FrontendKey.punctuation b'.') after_comma
    ≡ handle_key toy 1 (key_event FrontendKey.punctuation b'.') idle
unfolding clear_smart_punctuation_history
forget_other_keys_example =
    forget_other_keys_lem toy 1 (key_event FrontendKey.punctuation b'.') after_comma refl

handle_key-Progress_example :
    Returns (Progress toy 2 idle) (handle_key toy 0 (key_event FrontendKey.character b'n') idle)
handle_key-Progress_example =
    handle_key-Progress toy toy-IsQuiet 0 (key_event FrontendKey.character b'n') idle
      (composing-Inv []) (omega arith)

-- The controller in direct mode, with the English punctuation that follows it.
abbrev direct : Controller Bytes Bytes
direct = record idle {
  mode = InputMode.direct;
  punctuation_mode = PunctuationMode.english;
  online_generation = 3;
  sequence = 3;
}

abbrev back : Controller Bytes Bytes
back = record idle { online_generation = 5; sequence = 5 }

toggle_once : toggle_mode toy idle ≡ returned (handled_result, direct)
unfolding toggle_mode set_mode
toggle_once = refl

toggle_twice : toggle_mode toy direct ≡ returned (handled_result, back)
unfolding toggle_mode set_mode
toggle_twice = refl

toggle_mode_lem_example :
    direct.punctuation_mode ≡ locked_punctuation idle.punctuation_lock (flip idle.mode)
toggle_mode_lem_example = (toggle_mode_lem toy idle direct handled_result toggle_once).2

toggle_mode-toggle_mode_example : back.mode ≡ idle.mode
toggle_mode-toggle_mode_example =
    (toggle_mode-toggle_mode toy idle direct back handled_result handled_result toggle_once
      toggle_twice).0

-- The controller is rebuilt over a session in which the same was typed.
rebuilt_controller_refuses_example :
    (d : Controller Bytes Bytes) × (construct toy
        (λ v. true)
        typed
        options
        PunctuationMode.chinese
        CharacterWidth.half
        ((composing typed).sequence + 2)
      ≡ built d)
    × Inv toy d
    × (apply_online_candidate toy request.generation request.query typed 7 d ≡ (false, d))
rebuilt_controller_refuses_example =
    rebuilt_controller_refuses toy (λ v. true) (composing typed) request typed 7 typed options
      PunctuationMode.chinese CharacterWidth.half ((composing typed).sequence + 2)
      (composing-Inv typed) request_example (omega arith) (omega arith) (omega arith) refl refl
