-- ===== src/Controller/Smart/Marks.antt =====
-- The parts of `commit_punctuation` and `handle_key` (src/InputController.cpp) on a smart mark.
use msime_linux.Base.{
  ℕ, ◌-◌, ◌≤◌, ◌≡◌, refl, Bool, true, false, arith, if◌then◌else◌, Option, some, ◌&&◌, leb, ◌==◌,
  is_empty, [], bytes_eq, bytes_eq_refl,
}
use msime_linux.Text.Formatter
use msime_linux.Text.Formatter.{
  is_punctuation, should_keep_ascii_punctuation, paired_punctuation_closing,
}
use msime_linux.Controller.Types.{Event, Result, is_chinese}
use msime_linux.Controller.State.{Controller, clear_smart_punctuation_history}
use msime_linux.Controller.Punctuation.{
  choose_punctuation, committed_smart_ascii, reopen_quote, commit_mark, commit_paired,
  place_punctuation, can_replace_recent_ascii, append_commit, is_pending, single, repeat_window,
}
use msime_linux.Controller.Keys.{forget_other_keys, is_punctuation_key}

-- The marks that may be kept as ASCII.
pub data IsSmartKey : ℕ → Type 0 where
  comma : IsSmartKey b','
  period : IsSmartKey b'.'
  colon : IsSmartKey b':'

pub record IsSmart (key : ℕ) : Type 0 where
  pub mark : is_punctuation key ≡ true
  pub quote : reopen_quote key (single key) ≡ single key
  pub closing : paired_punctuation_closing (single key) ≡ []
  pub written : (f : Formatter.Formatter) → is_empty (Formatter.chinese f key).0 ≡ false

pub IsSmartKey-IsSmart : {key : ℕ} → IsSmartKey key → IsSmart key
unfolding is_punctuation reopen_quote bytes_eq paired_punctuation_closing Formatter.chinese
    Formatter.fixed_mark
IsSmartKey-IsSmart comma = record { mark = refl; quote = refl; closing = refl; written = λ f. refl }
IsSmartKey-IsSmart period = record {
  mark = refl;
  quote = refl;
  closing = refl;
  written = λ f. refl;
}
IsSmartKey-IsSmart colon = record { mark = refl; quote = refl; closing = refl; written = λ f. refl }

module _ {S W : Type 0} where
  pub record KeepsAscii (c : Controller S W) : Type 0 where
    pub mode : is_chinese c.punctuation_mode ≡ true
    pub smart : c.options.smart_punctuation ≡ true
    pub repeat : c.options.smart_punctuation_repeat_to_chinese ≡ true

  choose_smart :
      (had : Bool) (key : ℕ) (before : Option ℕ) (c : Controller S W)
      → KeepsAscii c
      → IsSmart key
      → should_keep_ascii_punctuation key before ≡ true
      → choose_punctuation c had key before ≡ (single key, c.punctuation_formatter)
  unfolding choose_punctuation
  choose_smart had key before c k s keep = ground (arith, k.mode, k.smart, s.mark)

  committed_on :
      (key : ℕ) (before : Option ℕ) (c : Controller S W)
      → KeepsAscii c
      → should_keep_ascii_punctuation key before ≡ true
      → committed_smart_ascii c (single key) key before ≡ true
  unfolding committed_smart_ascii
  committed_on key before c k keep = ground (arith, k.mode, k.smart, bytes_eq_refl (single key))

  -- The members after a smart mark.
  abbrev pub remembered : Controller S W → ℕ → ℕ → Controller S W
  remembered c key now = record c { history_active = true; history_key = key; history_time = now }

  commit_paired_smart :
      (r : Result) (key now : ℕ) (c : Controller S W)
      → IsSmart key
      → is_pending c.pending_paired_closings (single key) ≡ false
      → commit_paired r (single key) true key now c ≡ (
        record r { commit = append_commit r.commit (single key); handled = true },
        remembered c key now,
      )
  unfolding commit_paired commit_mark
  commit_paired_smart r key now c s free = rw (s.closing, free)

  pub place_smart :
      (r : Result) (had : Bool) (key : ℕ) (before : Option ℕ) (now : ℕ) (c : Controller S W)
      → KeepsAscii c
      → IsSmart key
      → should_keep_ascii_punctuation key before ≡ true
      → is_pending c.pending_paired_closings (single key) ≡ false
      → place_punctuation r had key before now c ≡ (
        record r { commit = append_commit r.commit (single key); handled = true },
        remembered c key now,
      )
  unfolding place_punctuation
  place_smart r had key before now c k s keep free =
      rw (choose_smart had key before c k s keep, committed_on key before c k keep, s.quote)
        (either (c.options.paired_punctuation && is_chinese c.punctuation_mode) _ _
          (commit_paired_smart r key now c s free) (unfold commit_mark in refl))
    where
      either :
          (b : Bool) (x y : Result × Controller S W) {z : Result × Controller S W}
          → x ≡ z
          → y ≡ z
          → (if b then x else y) ≡ z
      either true x y p q = p
      either false x y p q = q

  pub not_recent :
      (had : Bool) (key : ℕ) (before : Option ℕ) (now : ℕ) (c : Controller S W)
      → c.history_active ≡ false
      → can_replace_recent_ascii c had key before now ≡ false
  unfolding can_replace_recent_ascii
  not_recent had key before now c idle = ground (arith, idle)

  pub forgets :
      (e : Event) (c : Controller S W)
      → (is_punctuation_key e.key && e.character == c.history_key) ≡ false
      → forget_other_keys e c ≡ clear_smart_punctuation_history c
  unfolding forget_other_keys
  forgets e c other = ground (arith, other)

  pub forgets_twice :
      (e : Event) (c : Controller S W)
      → forget_other_keys e (clear_smart_punctuation_history c) ≡ clear_smart_punctuation_history c
  unfolding forget_other_keys clear_smart_punctuation_history
  forgets_twice e c = ground arith

  pub replaceable :
      (key now later : ℕ) (c : Controller S W)
      → KeepsAscii c
      → IsSmartKey key
      → now ≤ later
      → can_replace_recent_ascii (remembered c key now) false key (some key) later
        ≡ leb (later - now) repeat_window
  unfolding can_replace_recent_ascii
  replaceable key now later c k comma le = ground (arith, k.mode, k.smart, k.repeat)
  replaceable key now later c k period le = ground (arith, k.mode, k.smart, k.repeat)
  replaceable key now later c k colon le = ground (arith, k.mode, k.smart, k.repeat)
