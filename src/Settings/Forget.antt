-- ===== src/Settings/Forget.antt =====
-- A credential that a save is asked to forget (src/SettingsStore.cpp).
use msime_linux.Base.{
  true, not, Option, none, some, List, [], Bytes, ◌≡◌, ◌≢◌, ◌⊎◌, refl, if_intro, inl, inr,
}
use msime_linux.Settings.Types.{InputSettings}
use msime_linux.Settings.KeyFile.{KeyFile}
use msime_linux.Settings.Valid.{Checks, valid_input_settings}
use msime_linux.Settings.Load.{load}
use msime_linux.Settings.Disk.{
  Disk, System, SaveError, out_of_range, cannot_access_credentials, Saved, read_config,
  save_unlocked,
}
use msime_linux.Settings.Secrets.{
  Entry, Lookup, found, not_found, unavailable, SecretStore, SecretLaws, ai_entry,
}
use msime_linux.Settings.Plan.{Pending, Plan, is_removed, plan_all}
use msime_linux.Settings.Commit.{
  any_unreachable, drop_needless, Applied, look_up_previous, apply_all, Committed, untouched,
  rolled_back, store_file, commit, execute, save_with_secrets_unlocked,
}
use msime_linux.Settings.Absent.{
  apply_all-absent, drop_needless-is_written, drop_needless-is_removed,
}
use msime_linux.Settings.Quiet.{Gone, gone_refuse, gone_plan, plan_all-Gone}

module _ {X : Type 0} {F : Type 0} (V : SecretStore X) (held : X → Entry → Option Bytes)
    (laws : SecretLaws V held) (G : KeyFile F) (K : Checks) (digest_of : Bytes → Bytes) where
  -- When the save succeeds, the service does not hold the credential.
  unfoldable Absent : Entry → Committed X → Type 0
  Absent e c = c.error ≡ none → held c.secrets e ≡ none

  store_file-Absent :
      (r : Saved) (x : X) (done : List Pending) (o : Option SaveError) (e : Entry)
      → held x e ≡ none
      → Absent e (store_file V G K digest_of r x done o)
  unfolding store_file rolled_back Absent
  store_file-Absent r x done none e h = λ error. h
  store_file-Absent r x done (some f) e h = λ error. absurd (cc error)

  commit-Absent :
      (io : System) (s : InputSettings) (d : Disk) (a : Applied X) (e : Entry)
      → (a.all_applied ≡ true → held a.secrets e ≡ none)
      → Absent e (commit V G K digest_of io s d a)
  unfolding commit rolled_back Absent
  commit-Absent io s d a e h =
      if_intro (λ (c : Committed X). c.error ≡ none → held c.secrets e ≡ none) a.all_applied _ _
        (λ b.
          store_file-Absent (save_unlocked G K digest_of io s d) a.secrets a.attempted _ e (h b))
        (λ b error. absurd (cc error))

  known_case :
      (x : X) (p : List Pending) (e : Entry) (r : Lookup)
      → V.lookup x e ≡ r
      → r ≢ unavailable
      → is_removed e p ≡ true
      → (is_removed e (drop_needless (look_up_previous V x p)) ≡ true) ⊎ (held x e ≡ none)
  known_case x p e (found v) l known h = inl (drop_needless-is_removed V held laws x p e v l h)
  known_case x p e not_found l known h = inr (laws.lookup_not_found x e l)
  known_case x p e unavailable l known h = absurd (known refl)

  execute-Absent :
      (io : System) (s : InputSettings) (d : Disk) (x : X) (e : Entry) (pl : Plan)
      → Gone e pl
      → V.lookup x e ≢ unavailable
      → Absent e (execute V G K digest_of io s d x pl)
  unfolding execute Absent
  execute-Absent io s d x e pl (gone_refuse r) known = λ error. absurd (cc error)
  execute-Absent io s d x e pl (gone_plan p quiet removed) known =
      if_intro (λ (c : Committed X). Absent e c) (any_unreachable (look_up_previous V x p))
        (untouched cannot_access_credentials x d)
        (commit V G K digest_of io s d (apply_all V x [] (drop_needless (look_up_previous V x p))))
        (λ b error. absurd (cc error))
        (λ b. commit-Absent io s d _ e (λ applied.
          apply_all-absent V held laws x [] _ e applied
            (drop_needless-is_written V held laws x p e quiet)
            (known_case x p e _ refl known removed)))

  -- When a save that carries a request to forget the AI credential reports success, the service no
  -- longer holds the credential of the selected provider, whatever the settings and the file say and
  -- even if a token was entered; provided that the service answered when it was asked for it.
  pub forgotten_credential_is_gone :
      (io : System) (s : InputSettings) (x : X) (d : Disk)
      → s.online.ai_credential_cleared ≡ true
      → V.lookup x (ai_entry s) ≢ unavailable
      → (save_with_secrets_unlocked V G K digest_of io s x d).error ≡ none
      → held (save_with_secrets_unlocked V G K digest_of io s x d).secrets (ai_entry s) ≡ none
  unfolding save_with_secrets_unlocked Absent
  forgotten_credential_is_gone io s x d cleared known =
      if_intro (λ (c : Committed X). Absent (ai_entry s) c) (not (valid_input_settings K s))
        (untouched out_of_range x d)
        (execute V G K digest_of io s d x
          (plan_all V x (load G K (read_config io.reads d.config)).0 s))
        (λ b error. absurd (cc error))
        (λ b. execute-Absent io s d x (ai_entry s) _ (plan_all-Gone V x _ s cleared) known)
