-- ===== src/Controller/Smart.antt =====
-- Smart punctuation: a mark kept as ASCII is remembered, and typing it again soon replaces it.
pub mod Marks
use msime_linux.Base.{
  ℕ, ◌-◌, ◌≤◌, ◌≡◌, refl, Bool, true, false, arith, if◌then◌else◌, Option, none, some, Bytes, ◌&&◌,
  leb, ◌==◌, is_empty, [], bytes_eq, bytes_eq_refl,
}
use msime_linux.Text.Formatter
use msime_linux.Text.Formatter.{
  is_punctuation, should_keep_ascii_punctuation, paired_punctuation_closing,
}
use msime_linux.Controller.Types.{Engine, Event, KeyResult, Result, is_chinese, no_result}
use msime_linux.Controller.State.{
  Controller, returned, clear_smart_punctuation_history, finish_composition, refresh,
  has_composition, of_key_result, conclude, finish_composition_mutation,
}
use msime_linux.Controller.Punctuation.{
  choose_punctuation, committed_smart_ascii, reopen_quote, commit_mark, commit_paired,
  place_punctuation, replace_recent, can_replace_recent_ascii, append_commit, is_pending, single,
  repeat_window, effective_preceding, commit_punctuation,
}
use msime_linux.Controller.Keys.{handle_key, forget_other_keys, is_punctuation_key}
use msime_linux.Controller.Smart.Marks.{
  IsSmartKey, IsSmart, IsSmartKey-IsSmart, KeepsAscii, remembered, place_smart, not_recent, forgets,
  forgets_twice, replaceable,
}

module _ {S W Q O : Type 0} (E : Engine S W Q O) where
  -- The library has nothing to finish: it reports the call as not handled and commits nothing.
  abbrev pub nothing_to_finish : Option Bytes → KeyResult
  nothing_to_finish diagnostic = record { handled = false; commit = none; diagnostic = diagnostic }

  first_mark :
      (r : Result) {key : ℕ} (preceding : Option ℕ) (now : ℕ) (c c1 : Controller S W)
      → KeepsAscii c1
      → IsSmart key
      → finish_composition E c ≡ returned (r, c1)
      → c1.history_active ≡ false
      → should_keep_ascii_punctuation key (effective_preceding r.commit preceding) ≡ true
      → is_pending c1.pending_paired_closings (single key) ≡ false
      → commit_punctuation E now key preceding c
        ≡ returned (
          record r { commit = append_commit r.commit (single key); handled = true },
          remembered c1 key now,
        )
  unfolding commit_punctuation
  first_mark r {key} preceding now c c1 k s finished idle keep free =
      let before = effective_preceding r.commit preceding in
      rw
        (
          finished,
          not_recent (has_composition c) key before now c1 idle,
          place_smart r (has_composition c) key before now c1 k s keep free,
        )
        refl

  finish_nothing :
      (diagnostic : Option Bytes) (s : S) (d : Controller S W)
      → E.finish d.session d.highlighted_candidate ≡ (nothing_to_finish diagnostic, s)
      → finish_composition E d
        ≡ returned
            (of_key_result (nothing_to_finish diagnostic), refresh E (record d { session = s }))
  unfolding finish_composition conclude finish_composition_mutation
  finish_nothing diagnostic s d nothing = rw nothing refl

  second_mark :
      (key now later : ℕ) (c1 : Controller S W) (diagnostic : Option Bytes) (s : S)
      → KeepsAscii c1
      → IsSmartKey key
      → now ≤ later
      → has_composition c1 ≡ false
      → E.finish c1.session c1.highlighted_candidate ≡ (nothing_to_finish diagnostic, s)
      → let d : Controller S W = remembered c1 key now in
        let d1 : Controller S W = refresh E (record d { session = s }) in
        let (mark, f) = Formatter.chinese c1.punctuation_formatter key in
        commit_punctuation E later key (some key) d
        ≡ returned (
            if leb (later - now) repeat_window
            then (
              record no_result { handled = true; commit = some mark; delete_before = 1 },
              record (clear_smart_punctuation_history d1) { punctuation_formatter = f },
            )
            else place_punctuation
                (of_key_result (nothing_to_finish diagnostic))
                false
                key
                (some key)
                later
                d1)
  unfolding commit_punctuation effective_preceding refresh replace_recent
      clear_smart_punctuation_history
  second_mark key now later c1 diagnostic s k key_smart le none_left nothing =
      let c2 : Controller S W = record c1 { session = s; snapshot = E.snapshot s } in
      let k2 : KeepsAscii c2 = record { mode = k.mode; smart = k.smart; repeat = k.repeat } in
      let written = (IsSmartKey-IsSmart key_smart).written c1.punctuation_formatter in
      rw
        (
          finish_nothing diagnostic s (remembered c1 key now) nothing,
          none_left,
          replaceable key now later c2 k2 key_smart le,
          written,
        )
        refl

  -- In Chinese mode with smart punctuation and its repetition on, let a comma, period or colon be
  -- kept as ASCII because of the character before it, let no mark be remembered, and let that mark
  -- itself be no pending closing mark. Then the key finishes the composition and commits the ASCII
  -- mark behind whatever that commits. Let the same key follow with no composition, with that mark
  -- before the caret and with a library that has nothing to finish. If no more than two seconds have
  -- passed, the key takes one character back and commits the Chinese mark alone, and forgets the
  -- mark; if more have passed, it is treated like any mark that is typed for the first time.
  pub repeat_to_chinese :
      (r : Result) {key : ℕ} (preceding : Option ℕ) (now later : ℕ) (c c1 : Controller S W)
      (diagnostic : Option Bytes) (s : S)
      → KeepsAscii c1
      → IsSmartKey key
      → finish_composition E c ≡ returned (r, c1)
      → c1.history_active ≡ false
      → should_keep_ascii_punctuation key (effective_preceding r.commit preceding) ≡ true
      → is_pending c1.pending_paired_closings (single key) ≡ false
      → now ≤ later
      → has_composition c1 ≡ false
      → E.finish c1.session c1.highlighted_candidate ≡ (nothing_to_finish diagnostic, s)
      → let d : Controller S W = remembered c1 key now in
        let d1 : Controller S W = refresh E (record d { session = s }) in
        let (mark, f) = Formatter.chinese c1.punctuation_formatter key in
        (commit_punctuation E now key preceding c
          ≡ returned (record r { commit = append_commit r.commit (single key); handled = true }, d))
        × (commit_punctuation E later key (some key) d
            ≡ returned (
                if leb (later - now) repeat_window
                then (
                  record no_result { handled = true; commit = some mark; delete_before = 1 },
                  record (clear_smart_punctuation_history d1) { punctuation_formatter = f },
                )
                else place_punctuation
                    (of_key_result (nothing_to_finish diagnostic))
                    false
                    key
                    (some key)
                    later
                    d1))
  unfolding commit_punctuation
  repeat_to_chinese r {key} preceding now later c c1 diagnostic s k key_smart finished idle keep
        free le none_left nothing =
      (
        first_mark r preceding now c c1 k (IsSmartKey-IsSmart key_smart) finished idle keep free,
        second_mark key now later c1 diagnostic s k key_smart le none_left nothing,
      )

  -- A key other than the remembered mark (another kind of key, or another character) forgets the
  -- mark before anything else: it is handled exactly as if no mark had been remembered, whatever the
  -- mode, the composition and the time.
  pub forget_other_keys_lem :
      (now : ℕ) (e : Event) (c : Controller S W)
      → (is_punctuation_key e.key && e.character == c.history_key) ≡ false
      → handle_key E now e c ≡ handle_key E now e (clear_smart_punctuation_history c)
  unfolding handle_key
  forget_other_keys_lem now e c other = rw (forgets e c other, forgets_twice e c) refl
