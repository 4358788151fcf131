-- ===== src/Controller/Types.antt =====
-- The types of src/InputController.h and src/TextTransform.h, and the interface of the session
-- library, which the controller calls and whose code is not in this repository.
use msime_linux.Base.{ℕ, Bool, true, false, Option, none, List, Bytes, ◌==◌}

pub data InputMode : Type 0 where
  ime direct : InputMode

pub data PreeditStyle : Type 0 where
  raw pinyin hidden : PreeditStyle

pub data PunctuationMode : Type 0 where
  chinese english : PunctuationMode

pub data PunctuationLock : Type 0 where
  follow chinese english : PunctuationLock

pub data CharacterWidth : Type 0 where
  half full : CharacterWidth

abbrev pub same_mode : InputMode → InputMode → Bool
same_mode InputMode.ime InputMode.ime = true
same_mode InputMode.direct InputMode.direct = true
same_mode _ _ = false

abbrev pub same_punctuation : PunctuationMode → PunctuationMode → Bool
same_punctuation PunctuationMode.chinese PunctuationMode.chinese = true
same_punctuation PunctuationMode.english PunctuationMode.english = true
same_punctuation _ _ = false

abbrev pub same_width : CharacterWidth → CharacterWidth → Bool
same_width CharacterWidth.half CharacterWidth.half = true
same_width CharacterWidth.full CharacterWidth.full = true
same_width _ _ = false

abbrev pub is_chinese : PunctuationMode → Bool
is_chinese m = same_punctuation m PunctuationMode.chinese

abbrev pub is_full : CharacterWidth → Bool
is_full w = same_width w CharacterWidth.full

pub data FrontendKey : Type 0 where
  character punctuation backspace enter escape space digit up down page_up page_down : FrontendKey
  toggle_punctuation toggle_width toggle_english : FrontendKey

-- A `char` is the unsigned value of its byte.
pub record Event : Type 0 where
  pub key : FrontendKey
  pub character : ℕ
  pub digit : ℕ
  pub host_shortcut : Bool
  pub preceding_character : Option ℕ
  pub shift_only : Bool

pub record Result : Type 0 where
  pub handled : Bool
  pub commit : Option Bytes
  pub diagnostic : Option Bytes
  pub delete_before : ℕ
  pub cursor_left : ℕ
  pub cursor_right : ℕ

-- `ControllerResult{}` and `{handled, std::nullopt}`.
abbrev pub no_result : Result
no_result = record {
  handled = false;
  commit = none;
  diagnostic = none;
  delete_before = 0;
  cursor_left = 0;
  cursor_right = 0;
}

abbrev pub handled_result : Result
handled_result = record no_result { handled = true }

-- The schemes and local modes that the controller names; the library may have more.
pub data Scheme : Type 0 where
  quanpin shuangpin : Scheme
  other : ℕ → Scheme

pub data LocalMode : Type 0 where
  inactive unicode temporary_english temporary_japanese : LocalMode
  other : ℕ → LocalMode

abbrev pub same_scheme : Scheme → Scheme → Bool
same_scheme quanpin quanpin = true
same_scheme shuangpin shuangpin = true
same_scheme (Scheme.other a) (Scheme.other b) = a == b
same_scheme _ _ = false

abbrev pub is_inactive : LocalMode → Bool
is_inactive LocalMode.inactive = true
is_inactive _ = false

abbrev pub is_unicode : LocalMode → Bool
is_unicode LocalMode.unicode = true
is_unicode _ = false

abbrev pub is_temporary : LocalMode → Bool
is_temporary LocalMode.temporary_english = true
is_temporary LocalMode.temporary_japanese = true
is_temporary _ = false

-- What the controller reads of the library's `KeyResult` and `SessionSnapshot`.
pub record KeyResult : Type 0 where
  pub handled : Bool
  pub commit : Option Bytes
  pub diagnostic : Option Bytes

pub record Snapshot (W : Type 0) : Type 0 where
  pub preedit : Bytes
  pub raw_segmentation : Bytes
  pub normalized_segmentation : Bytes
  pub candidates : List W
  pub scheme : Scheme
  pub local_mode : LocalMode
  pub dedicated_english : Bool

-- The calls of the library's `Session` that the controller makes, each with the session that it
-- leaves: `S` is the session, `W` a candidate, `Q` an online query, `O` a candidate's source.
pub record Engine (S W Q O : Type 0) : Type 0 where
  pub snapshot : S → Snapshot W
  pub type_character : S → ℕ → Bool → KeyResult × S
  -- `character` with its default second argument.
  pub type_plain : S → ℕ → KeyResult × S
  pub backspace : S → KeyResult × S
  pub commit_raw : S → KeyResult × S
  pub cancel : S → KeyResult × S
  pub commit_candidate : S → KeyResult × S
  pub select : S → ℕ → KeyResult × S
  pub select_first_han : S → ℕ → KeyResult × S
  pub select_last_han : S → ℕ → KeyResult × S
  pub finish : S → ℕ → KeyResult × S
  pub set_dedicated_english : S → Bool → S
  pub switch_scheme : S → Scheme → S
  pub set_helpcode_enabled : S → Bool → S
  pub set_helpcode_schema : S → Bytes → S
  pub online_query : S → Option Q
  pub apply_online_candidate : S → Q → Bytes → O → Bool × S
