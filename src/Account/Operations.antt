-- ===== src/Account/Operations.antt =====
-- The remaining operations of an account session (src/account/AccountSession.cpp), and all of them
-- as one type.
use msime_linux.Base.{ℕ, Bool, false, Option, some, [], Bytes, bytes_eq}
use msime_linux.Account.Types.{
  Challenge, ClipboardSnapshot, DictionaryEntry, DictionaryPage, DictionaryCatalogOptions,
  DictionaryImportResult, DictionaryChange, failure,
}
use msime_linux.Account.Monad.{Nothing, Op, Cancellation, ◌>>=◌, require, outside}
use msime_linux.Account.Session.{
  Services, SessionSnapshot, current, signed_in, replace, saved, discard, guarded, authorized,
}

module _ {W K B : Type 0} (V : Services W K B) where
  unfoldable pub begin_link : ℕ → Bytes → Bytes → Cancellation W → Op W Challenge
  begin_link generation provider target cancelled = do
    token ← authorized V generation cancelled
    outside (V.challenge provider target token cancelled)

  unfoldable pub link : ℕ → Bytes → Bytes → Cancellation W → Op W SessionSnapshot
  link generation challenge credential cancelled = do
    token ← authorized V generation cancelled
    tokens ← outside (V.login challenge credential token cancelled)
    next ← saved V tokens
    s ← signed_in
    _ ← require (failure 0 false) (bytes_eq next.tokens.user.id s.tokens.user.id)
    _ ← outside (V.save next)
    _ ← replace (some next)
    current

  unfoldable pub logout : ℕ → Bool → Cancellation W → Op W Nothing
  logout generation everywhere cancelled = do
    token ← authorized V generation cancelled
    _ ← outside (V.logout token everywhere cancelled)
    discard V

  unfoldable pub delete_account : ℕ → Cancellation W → Op W Nothing
  delete_account generation cancelled = do
    token ← authorized V generation cancelled
    _ ← outside (V.delete_account token cancelled)
    discard V

  -- `clipboard_operation`, and every method with the same `try` block around its call.
  unfoldable pub with_token : {A : Type 0} → ℕ → Cancellation W → (Bytes → Op W A) → Op W A
  with_token generation cancelled operation = do
    token ← authorized V generation cancelled
    guarded V (operation token)

  unfoldable pub clipboard : ℕ → Bytes → Cancellation W → Op W ClipboardSnapshot
  clipboard generation query cancelled =
      with_token generation cancelled (λ token. outside (V.clipboard token query cancelled))

  unfoldable pub set_clipboard_enabled : ℕ → Bool → Cancellation W → Op W ClipboardSnapshot
  set_clipboard_enabled generation enabled cancelled = with_token generation cancelled (λ token.
      outside (V.set_clipboard_enabled enabled token cancelled)
      >>= (λ _. outside (V.clipboard token [] cancelled)))

  unfoldable pub add_clipboard : ℕ → Bytes → Cancellation W → Op W ClipboardSnapshot
  add_clipboard generation text cancelled = with_token generation cancelled (λ token.
      outside (V.add_clipboard text token cancelled)
      >>= (λ _. outside (V.clipboard token [] cancelled)))

  unfoldable pub delete_clipboard : ℕ → Bytes → Cancellation W → Op W ClipboardSnapshot
  delete_clipboard generation id cancelled = with_token generation cancelled (λ token.
      outside (V.delete_clipboard id token cancelled)
      >>= (λ _. outside (V.clipboard token [] cancelled)))

  unfoldable pub dictionary : ℕ → Bytes → Bytes → ℕ → ℕ → Cancellation W → Op W DictionaryPage
  dictionary generation kind query offset limit cancelled =
      with_token generation cancelled
        (λ token. outside (V.dictionary kind query offset limit token cancelled))

  unfoldable pub dictionary_catalog :
      ℕ → Bytes → Bytes → ℕ → ℕ → Cancellation W → DictionaryCatalogOptions → Op W DictionaryPage
  dictionary_catalog generation kind query offset limit cancelled options =
      with_token generation cancelled
        (λ token. outside (V.dictionary_catalog kind query offset limit token cancelled options))

  unfoldable pub manage_dictionary :
      ℕ
      → Bytes
      → ℕ
      → DictionaryEntry
      → Option DictionaryEntry
      → Cancellation W
      → Op W DictionaryChange
  manage_dictionary generation kind revision previous next cancelled =
      with_token generation cancelled
        (λ token. outside (V.manage_dictionary kind revision previous next token cancelled))

  unfoldable pub edit_dictionary :
      ℕ → Bytes → Bytes → ℕ → Option DictionaryEntry → Cancellation W → Op W DictionaryChange
  edit_dictionary generation kind id revision next cancelled =
      with_token generation cancelled
        (λ token. outside (V.edit_dictionary kind id revision next token cancelled))

  unfoldable pub import_dictionary :
      ℕ → Bytes → Bytes → Bytes → Cancellation W → Op W DictionaryImportResult
  import_dictionary generation kind text format cancelled =
      with_token generation cancelled
        (λ token. outside (V.import_dictionary kind text format token cancelled))

  unfoldable pub import_han_dictionary :
      ℕ → Bytes → ℕ → Cancellation W → Op W DictionaryImportResult
  import_han_dictionary generation text weight cancelled =
      with_token generation cancelled
        (λ token. outside (V.import_han_dictionary text weight token cancelled))

  unfoldable pub export_dictionary : ℕ → Bytes → Bytes → Cancellation W → Op W Bytes
  export_dictionary generation kind format cancelled =
      with_token generation cancelled
        (λ token. outside (V.export_dictionary kind format token cancelled))

  unfoldable pub download_snapshot : ℕ → K → Cancellation W → Op W Nothing
  download_snapshot generation sink cancelled =
      with_token generation cancelled (λ token. outside (V.download_snapshot sink token cancelled))

  unfoldable pub restore_snapshot : ℕ → ℕ → B → ℕ → Cancellation W → Op W ℕ
  restore_snapshot generation size source revision cancelled =
      with_token generation cancelled
        (λ token. outside (V.restore_snapshot size source revision token cancelled))
