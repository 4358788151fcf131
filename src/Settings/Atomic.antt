-- ===== src/Settings/Atomic.antt =====
-- A save with credentials that fails leaves the credentials as they were (src/SettingsStore.cpp).
use msime_linux.Base.{
  Bool, true, false, not, ◌&&◌, ◌||◌, Option, none, some, List, [], ◌∷◌, Bytes, bytes_eq_iff,
  bytes_eq_refl, ◌≡◌, ◌≢◌, refl, sym, ◌∙◌, subst, if_intro, Bool-cases, inl, inr, arith,
}
use msime_linux.Settings.Types.{InputSettings}
use msime_linux.Settings.KeyFile.{KeyFile}
use msime_linux.Settings.Valid.{Checks, valid_input_settings}
use msime_linux.Settings.Load.{load}
use msime_linux.Settings.Disk.{
  Disk, System, SaveError, out_of_range, cannot_access_credentials, cannot_update_credentials,
  credentials_need_repair, Saved, read_config, save_unlocked,
}
use msime_linux.Settings.Secrets.{
  SecretKind, ai_api_token, translation_api_token, voice_api_token, account_session, kind_eq, Entry,
  entry_eq, Lookup, found, not_found, unavailable, SecretStore, SecretLaws,
}
use msime_linux.Settings.Plan.{Pending, Plan, refuse, plan, plan_all}
use msime_linux.Settings.Commit.{
  is_unavailable, is_found, any_unreachable, drop_needless, Applied, look_up_previous, apply_one,
  undo_with, rollback, apply_all, Committed, untouched, rolled_back, store_file, commit, execute,
  save_with_secrets_unlocked,
}

kind_eq_lem : (a b : SecretKind) → kind_eq a b ≡ true → a ≡ b
unfolding kind_eq
kind_eq_lem ai_api_token ai_api_token h = refl
kind_eq_lem translation_api_token translation_api_token h = refl
kind_eq_lem voice_api_token voice_api_token h = refl
kind_eq_lem account_session account_session h = refl
kind_eq_lem _ _ h = absurd (ground (arith, h))

pub entry_eq_lem : (a b : Entry) → entry_eq a b ≡ true → a ≡ b
unfolding entry_eq
entry_eq_lem a b h =
    let k = kind_eq_lem a.kind b.kind (ground (arith, h)) in
    let p = (bytes_eq_iff a.provider b.provider).0 (ground (arith, h)) in
    λ i. record { kind = k i; provider = p i }

kind_eq_refl : (k : SecretKind) → kind_eq k k ≡ true
unfolding kind_eq
kind_eq_refl ai_api_token = refl
kind_eq_refl translation_api_token = refl
kind_eq_refl voice_api_token = refl
kind_eq_refl account_session = refl

pub entry_eq_refl : (e : Entry) → entry_eq e e ≡ true
unfolding entry_eq
entry_eq_refl e = rw (kind_eq_refl e.kind, bytes_eq_refl e.provider) refl

-- What putting an answer back amounts to.
unfoldable restored : Lookup → Option Bytes
restored (found v) = some v
restored not_found = none
restored unavailable = none

unfoldable is_touched : List Pending → Entry → Bool
is_touched [] e = false
is_touched (p ∷ ps) e = entry_eq p.entry e || is_touched ps e

-- Each answer that a list remembers is what `g` holds.
data Truthful (g : Entry → Option Bytes) : List Pending → Type 0 where
  truthful_none : Truthful g []
  truthful_one :
      (p : Pending) (ps : List Pending)
      → g p.entry ≡ restored p.previous
      → Truthful g ps
      → Truthful g (p ∷ ps)

module _ {X : Type 0} (V : SecretStore X) (held : X → Entry → Option Bytes)
    (laws : SecretLaws V held) where
  undo_with-restored :
      (x : X) (e : Entry) (r : Lookup)
      → (undo_with V x e r).0 ≡ true
      → held (undo_with V x e r).1 e ≡ restored r
  unfolding undo_with restored
  undo_with-restored x e (found v) h = laws.store_done x e v h
  undo_with-restored x e not_found h = laws.erase_done x e h
  undo_with-restored x e unavailable h = laws.erase_done x e h

  undo_with-other :
      (x : X) (e : Entry) (r : Lookup) (e' : Entry)
      → entry_eq e e' ≡ false
      → held (undo_with V x e r).1 e' ≡ held x e'
  unfolding undo_with
  undo_with-other x e (found v) e' h = laws.store_other x e e' v h
  undo_with-other x e not_found e' h = laws.erase_other x e e' h
  undo_with-other x e unavailable e' h = laws.erase_other x e e' h

  pub apply_one-other :
      (x : X) (p : Pending) (e : Entry)
      → entry_eq p.entry e ≡ false
      → held (apply_one V x p).1 e ≡ held x e
  unfolding apply_one
  apply_one-other x p e h =
      if_intro (λ (r : Bool × X). held r.1 e ≡ held x e) p.remove (V.erase x p.entry)
        (V.store x p.entry p.value) (λ b. laws.erase_other x p.entry e h)
        (λ b. laws.store_other x p.entry e p.value h)

  -- All but what was touched is what it was.
  unfoldable Elsewhere : (Entry → Option Bytes) → X → List Pending → Type 0
  Elsewhere g x ps = (e : Entry) → is_touched ps e ≡ false → held x e ≡ g e

  undone :
      (g : Entry → Option Bytes) (x : X) (p : Pending) (ps : List Pending)
      → g p.entry ≡ restored p.previous
      → Elsewhere g x (p ∷ ps)
      → (undo_with V x p.entry p.previous).0 ≡ true
      → Elsewhere g (undo_with V x p.entry p.previous).1 ps
  unfolding Elsewhere is_touched
  undone g x p ps t h r e u = elim (Bool-cases (entry_eq p.entry e)) [
    | inl yes' ↦
        subst (λ e'. held (undo_with V x p.entry p.previous).1 e' ≡ g e')
          (entry_eq_lem p.entry e yes') (undo_with-restored x p.entry p.previous r ∙ sym t)
    | inr no' ↦ undo_with-other x p.entry p.previous e no' ∙ h e (ground (arith, no', u))
  ]

  -- A roll back that succeeds puts everything back.
  rollback-restores :
      (g : Entry → Option Bytes) (x : X) (ps : List Pending)
      → Truthful g ps
      → Elsewhere g x ps
      → (rollback V x ps).0 ≡ true
      → (e : Entry) → held (rollback V x ps).1 e ≡ g e
  unfolding rollback Elsewhere is_touched
  rollback-restores g x [] t h r = λ e. h e refl
  rollback-restores g x (p ∷ ps) (truthful_one _ _ tp tps) h r =
      rollback-restores g (undo_with V x p.entry p.previous).1 ps tps
        (undone g x p ps tp h (ground (arith, r))) (ground (arith, r))

  -- What applying leaves can be rolled back.
  record Undoable (g : Entry → Option Bytes) (a : Applied X) : Type 0 where
    answers : Truthful g a.attempted
    elsewhere : Elsewhere g a.secrets a.attempted

  apply_one-Elsewhere :
      (g : Entry → Option Bytes) (x : X) (p : Pending) (done : List Pending)
      → Elsewhere g x done
      → Elsewhere g (apply_one V x p).1 (p ∷ done)
  unfolding Elsewhere is_touched
  apply_one-Elsewhere g x p done h e u =
      apply_one-other x p e (ground (arith, u)) ∙ h e (ground (arith, u))

  apply_all-Undoable :
      (g : Entry → Option Bytes) (x : X) (done ps : List Pending)
      → Truthful g done
      → Truthful g ps
      → Elsewhere g x done
      → Undoable g (apply_all V x done ps)
  unfolding apply_all
  apply_all-Undoable g x done [] t t' h = record { answers = t; elsewhere = h }
  apply_all-Undoable g x done (p ∷ ps) t (truthful_one _ _ tp tps) h =
      let h' = apply_one-Elsewhere g x p done h in
      let t' = truthful_one p done tp t in
      if_intro (λ (a : Applied X). Undoable g a) (apply_one V x p).0
        (apply_all V (apply_one V x p).1 (p ∷ done) ps)
        (record { all_applied = false; secrets = (apply_one V x p).1; attempted = p ∷ done })
        (λ b. apply_all-Undoable g (apply_one V x p).1 (p ∷ done) ps t' tps h')
        (λ b. record { answers = t'; elsewhere = h' })

  lookup-restored :
      (x : X) (e : Entry) (r : Lookup)
      → V.lookup x e ≡ r
      → is_unavailable r ≡ false
      → held x e ≡ restored r
  unfolding is_unavailable restored
  lookup-restored x e (found v) h u = laws.lookup_found x e v h
  lookup-restored x e not_found h u = laws.lookup_not_found x e h
  lookup-restored x e unavailable h u = absurd (cc u)

  kept_is_known :
      (r : Lookup) (remove : Bool)
      → (not remove && is_unavailable r) ≡ false
      → (remove && not (is_found r)) ≡ false
      → is_unavailable r ≡ false
  unfolding is_unavailable is_found
  kept_is_known (found v) remove u k = refl
  kept_is_known not_found remove u k = refl
  kept_is_known unavailable remove u k = ground (arith, u, k)

  -- The answers that are left, after the needless removals were dropped, are true.
  drop_needless-Truthful :
      (x : X) (ps : List Pending)
      → any_unreachable (look_up_previous V x ps) ≡ false
      → Truthful (held x) (drop_needless (look_up_previous V x ps))
  unfolding any_unreachable look_up_previous drop_needless
  drop_needless-Truthful x [] h = truthful_none
  drop_needless-Truthful x (p ∷ ps) h =
      let q : Pending = record p { previous = V.lookup x p.entry } in
      let rest = drop_needless (look_up_previous V x ps) in
      let t : Truthful (held x) rest = drop_needless-Truthful x ps (ground (arith, h)) in
      if_intro (λ (l : List Pending). Truthful (held x) l)
        (p.remove && not (is_found (V.lookup x p.entry))) rest (q ∷ rest) (λ b. t)
        (λ b.
          truthful_one q rest
            (lookup-restored x p.entry _ refl (kept_is_known _ p.remove (ground (arith, h)) b)) t)

  -- The credentials are what `g` says, or the save reports that they need repair.
  unfoldable pub AsBefore : (Entry → Option Bytes) → Committed X → Type 0
  AsBefore g c =
      (e : SaveError)
      → c.error ≡ some e
      → e ≢ credentials_need_repair
      → (entry : Entry) → held c.secrets entry ≡ g entry

  rolled_back-AsBefore :
      (e : SaveError) (r : Saved) (x : X) (ps : List Pending) (g : Entry → Option Bytes)
      → Truthful g ps
      → Elsewhere g x ps
      → AsBefore g (rolled_back e r (rollback V x ps))
  unfolding AsBefore rolled_back
  rolled_back-AsBefore e r x ps g t h e' error no_repair = elim (Bool-cases (rollback V x ps).0) [
    | inl yes' ↦ rollback-restores g x ps t h yes'
    | inr no' ↦ absurd (no_repair (ground (arith, error, no')))
  ]

  module _ {F : Type 0} (G : KeyFile F) (K : Checks) (digest_of : Bytes → Bytes) where
    store_file-AsBefore :
        (r : Saved) (x : X) (ps : List Pending) (o : Option SaveError) (g : Entry → Option Bytes)
        → Truthful g ps
        → Elsewhere g x ps
        → AsBefore g (store_file V G K digest_of r x ps o)
    unfolding store_file AsBefore
    store_file-AsBefore r x ps none g t h = λ e error. absurd (cc error)
    store_file-AsBefore r x ps (some e) g t h = rolled_back-AsBefore e r x ps g t h

    commit-AsBefore :
        (io : System) (s : InputSettings) (d : Disk) (a : Applied X) (g : Entry → Option Bytes)
        → Undoable g a
        → AsBefore g (commit V G K digest_of io s d a)
    unfolding commit
    commit-AsBefore io s d a g u =
        if_intro (λ (c : Committed X). AsBefore g c) a.all_applied _ _
          (λ b.
            store_file-AsBefore (save_unlocked G K digest_of io s d) a.secrets a.attempted _ g
              u.answers u.elsewhere)
          (λ b.
            rolled_back-AsBefore cannot_update_credentials
              (record { error = none; disk = d; digest = none }) a.secrets a.attempted g u.answers
              u.elsewhere)

    untouched-AsBefore : (e : SaveError) (x : X) (d : Disk) → AsBefore (held x) (untouched e x d)
    unfolding AsBefore
    untouched-AsBefore e x d e' error no_repair entry = refl

    execute-AsBefore :
        (io : System) (s : InputSettings) (d : Disk) (x : X) (p : Plan)
        → AsBefore (held x) (execute V G K digest_of io s d x p)
    unfolding execute Elsewhere
    execute-AsBefore io s d x (refuse e) = untouched-AsBefore e x d
    execute-AsBefore io s d x (plan p) =
        if_intro (λ (c : Committed X). AsBefore (held x) c)
          (any_unreachable (look_up_previous V x p)) (untouched cannot_access_credentials x d)
          (commit V G K digest_of io s d
            (apply_all V x [] (drop_needless (look_up_previous V x p))))
          (λ b. untouched-AsBefore cannot_access_credentials x d)
          (λ b. commit-AsBefore io s d _ (held x) (
            apply_all-Undoable (held x) x [] _ truthful_none (drop_needless-Truthful x p b)
              (λ e u. refl)))

    -- When a save with credentials fails, and does not report that the credentials need repair, then
    -- every credential that the service holds is what it was: what was written and removed before
    -- the failure has been put back. This is so whatever the settings, the file and the failure.
    pub failed_save_keeps_credentials :
        (io : System) (s : InputSettings) (x : X) (d : Disk) (e : SaveError) (entry : Entry)
        → (save_with_secrets_unlocked V G K digest_of io s x d).error ≡ some e
        → e ≢ credentials_need_repair
        → held (save_with_secrets_unlocked V G K digest_of io s x d).secrets entry ≡ held x entry
    unfolding save_with_secrets_unlocked AsBefore
    failed_save_keeps_credentials io s x d e entry error no_repair =
        if_intro (λ (c : Committed X). AsBefore (held x) c) (not (valid_input_settings K s))
          (untouched out_of_range x d)
          (execute V G K digest_of io s d x
            (plan_all V x (load G K (read_config io.reads d.config)).0 s))
          (λ b. untouched-AsBefore out_of_range x d) (λ b. execute-AsBefore io s d x _) e error
          no_repair entry
