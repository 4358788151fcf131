-- ===== src/Settings/Quiet.antt =====
-- The changes that are planned for a credential to forget (src/SettingsStore.cpp).
use msime_linux.Base.{
  Bool, true, false, not, ◌&&◌, ◌||◌, Option, none, some, List, [], ◌∷◌, ◌++◌, Bytes, is_empty,
  if◌then◌else◌, ◌≡◌, refl, sym, subst, if_intro, Bool-cases, inl, inr, arith,
}
use msime_linux.Settings.Types.{InputSettings, AiProvider}
use msime_linux.Settings.Names.{ai_provider_name}
use msime_linux.Settings.Disk.{
  SaveError, no_ai_credential, no_voice_provider, cannot_access_credentials,
}
use msime_linux.Settings.Secrets.{
  Entry, entry_eq, kind_eq, Lookup, found, not_found, unavailable, SecretStore, ai_entry,
  deeplx_entry, voice_entry,
}
use msime_linux.Settings.Plan.{
  Pending, writing, removing, Plan, refuse, plan, then_plan, require_stored, token_to_store,
  plan_value, plan_credential, is_removed, plan_removal, plan_ai, plan_translation, plan_voice,
  plan_abandoned, plan_forgotten, plan_all, uses_translation_credential,
}
use msime_linux.Settings.Atomic.{entry_eq_refl}
use msime_linux.Settings.Absent.{is_written, either_false, skip_first}

-- A plan that does not write the credential.
data Quiet (e : Entry) : Plan → Type 0 where
  quiet_refuse : (r : SaveError) → Quiet e (refuse r)
  quiet_plan : (p : List Pending) → is_written e p ≡ false → Quiet e (plan p)

then_plan-Quiet :
    (e : Entry) (pl : Plan) (f : List Pending → Plan)
    → Quiet e pl
    → ((p : List Pending) → is_written e p ≡ false → Quiet e (f p))
    → Quiet e (then_plan pl f)
unfolding then_plan
then_plan-Quiet e pl f (quiet_refuse r) h = quiet_refuse r
then_plan-Quiet e pl f (quiet_plan p q) h = h p q

is_written-append :
    (e : Entry) (p : List Pending) (q : Pending)
    → is_written e p ≡ false
    → (not q.remove && entry_eq q.entry e) ≡ false
    → is_written e (p ++ (q ∷ [])) ≡ false
unfolding is_written
is_written-append e [] q h k = rw k refl
is_written-append e (r ∷ p) q h k =
    let both = either_false (not r.remove && entry_eq r.entry e) (is_written e p) h in
    rw (both.0) (is_written-append e p q both.1 k)

plan_removal-is_written :
    (e e' : Entry) (p : List Pending)
    → is_written e p ≡ false
    → is_written e (plan_removal e' p) ≡ false
unfolding plan_removal
plan_removal-is_written e e' p h =
    if_intro (λ (l : List Pending). is_written e l ≡ false)
      (is_empty e'.provider || is_removed e' p) p (p ++ (removing e' ∷ [])) (λ b. h)
      (λ b. is_written-append e p (removing e') h refl)

is_removed-append :
    (e : Entry) (p : List Pending) (q : Pending)
    → (is_removed e p || (q.remove && entry_eq q.entry e)) ≡ true
    → is_removed e (p ++ (q ∷ [])) ≡ true
unfolding is_removed
is_removed-append e [] q h = or_false (q.remove && entry_eq q.entry e) h
  where
    or_false : (b : Bool) → (false || b) ≡ true → (b || false) ≡ true
    or_false b h = ground (arith, h)
is_removed-append e (r ∷ p) q h = elim (Bool-cases (r.remove && entry_eq r.entry e)) [
  | inl yes' ↦ rw yes' refl
  | inr no' ↦
      rw no' (is_removed-append e p q (drop_false (r.remove && entry_eq r.entry e) _ _ no' h))
]
  where
    drop_false : (a b c : Bool) → a ≡ false → ((a || b) || c) ≡ true → (b || c) ≡ true
    drop_false a b c h k = ground (arith, h, k)

plan_removal-is_removed :
    (e e' : Entry) (p : List Pending)
    → is_removed e p ≡ true
    → is_removed e (plan_removal e' p) ≡ true
unfolding plan_removal
plan_removal-is_removed e e' p h =
    if_intro (λ (l : List Pending). is_removed e l ≡ true) (is_empty e'.provider || is_removed e' p)
      p (p ++ (removing e' ∷ [])) (λ b. h) (λ b. is_removed-append e p (removing e') (rw h refl))

plan_removal-removed :
    (e : Entry) (p : List Pending)
    → is_empty e.provider ≡ false
    → is_removed e (plan_removal e p) ≡ true
unfolding plan_removal
plan_removal-removed e p named =
    if_intro (λ (l : List Pending). is_removed e l ≡ true) (is_empty e.provider || is_removed e p) p
      (p ++ (removing e ∷ [])) (λ b. skip_first (is_empty e.provider) (is_removed e p) named b)
      (λ b.
        is_removed-append e p (removing e)
          (last_holds (is_removed e p) (entry_eq e e) (entry_eq_refl e)))
  where
    last_holds : (a b : Bool) → b ≡ true → (a || (true && b)) ≡ true
    last_holds a b h = ground (arith, h)

module _ {X : Type 0} (V : SecretStore X) (x : X) where
  -- Planning another credential does not write this one.
  plan_credential-Quiet :
      (e e' : Entry) (token previous : Bytes) (missing : Option SaveError) (p : List Pending)
      → entry_eq e' e ≡ false
      → is_written e p ≡ false
      → Quiet e (plan_credential V x e' token previous missing p)
  unfolding plan_credential plan_value require_stored
  plan_credential-Quiet e e' token previous missing p other h =
      value_quiet (token_to_store V x e' token previous)
    where
      stored_quiet : (m : Option SaveError) (r : Lookup) → Quiet e (require_stored m r p)
      stored_quiet none r = quiet_plan p h
      stored_quiet (some m) not_found = quiet_refuse m
      stored_quiet (some m) (found v) = quiet_plan p h
      stored_quiet (some m) unavailable = quiet_plan p h

      value_quiet : (o : Option Bytes) → Quiet e (plan_value V x e' o missing p)
      value_quiet none = quiet_refuse cannot_access_credentials
      value_quiet (some v) =
          if_intro (λ (pl : Plan). Quiet e pl) (not (is_empty v)) (plan (p ++ (writing e' v ∷ [])))
            (require_stored missing (V.lookup x e') p)
            (λ b. quiet_plan _ (is_written-append e p (writing e' v) h (rw other refl)))
            (λ b. stored_quiet missing (V.lookup x e'))

  -- Without a token and without a message for a missing credential nothing is planned.
  plan_credential-cleared :
      (cleared : Bool) (e : Entry) (token previous : Bytes) (missing : SaveError)
      → cleared ≡ true
      → plan_credential V x e
          (if cleared then [] else token)
          previous
          (if cleared then none else some missing)
          []
        ≡ plan []
  unfolding plan_credential token_to_store plan_value require_stored
  plan_credential-cleared true e token previous missing h = refl
  plan_credential-cleared false e token previous missing h = absurd (cc h)

-- A plan that removes the credential and does not write it.
pub data Gone (e : Entry) : Plan → Type 0 where
  gone_refuse : (r : SaveError) → Gone e (refuse r)
  gone_plan : (p : List Pending) → is_written e p ≡ false → is_removed e p ≡ true → Gone e (plan p)

then_plan-Gone :
    (e : Entry) (pl : Plan) (f : List Pending → Plan)
    → Quiet e pl
    → ((p : List Pending) → is_written e p ≡ false → Gone e (f p))
    → Gone e (then_plan pl f)
unfolding then_plan
then_plan-Gone e pl f (quiet_refuse r) h = gone_refuse r
then_plan-Gone e pl f (quiet_plan p q) h = h p q

-- Removals that depend on a test.
removal_else :
    (e e' : Entry) (b : Bool) (p : List Pending)
    → is_written e p ≡ false
    → is_written e (if b then p else plan_removal e' p) ≡ false
removal_else e e' b p h =
    if_intro (λ (l : List Pending). is_written e l ≡ false) b p (plan_removal e' p) (λ c. h)
      (λ c. plan_removal-is_written e e' p h)

removal_then :
    (e e' : Entry) (b : Bool) (p : List Pending)
    → is_written e p ≡ false
    → is_written e (if b then plan_removal e' p else p) ≡ false
removal_then e e' b p h =
    if_intro (λ (l : List Pending). is_written e l ≡ false) b (plan_removal e' p) p
      (λ c. plan_removal-is_written e e' p h) (λ c. h)

removal_then_kept :
    (e e' : Entry) (b : Bool) (p : List Pending)
    → is_removed e p ≡ true
    → is_removed e (if b then plan_removal e' p else p) ≡ true
removal_then_kept e e' b p h =
    if_intro (λ (l : List Pending). is_removed e l ≡ true) b (plan_removal e' p) p
      (λ c. plan_removal-is_removed e e' p h) (λ c. h)

removal_then_done :
    (e : Entry) (b : Bool) (p : List Pending)
    → b ≡ true
    → is_empty e.provider ≡ false
    → is_removed e (if b then plan_removal e p else p) ≡ true
removal_then_done e true p h named = plan_removal-removed e p named
removal_then_done e false p h named = absurd (cc h)

plan_abandoned-is_written :
    (e : Entry) (before s : InputSettings) (p : List Pending)
    → is_written e p ≡ false
    → is_written e (plan_abandoned before s p) ≡ false
unfolding plan_abandoned
plan_abandoned-is_written e before s p h =
    removal_else e _ s.voice.enabled _ (
      removal_else e _ (uses_translation_credential s) _ (removal_else e _ s.online.ai.enabled p h))

plan_forgotten-is_written :
    (e : Entry) (s : InputSettings) (p : List Pending)
    → is_written e p ≡ false
    → is_written e (plan_forgotten s p) ≡ false
unfolding plan_forgotten
plan_forgotten-is_written e s p h = removal_then e _ s.voice_credential_cleared _ (
    removal_then e _ s.online.translation_credential_cleared _
      (removal_then e _ s.online.ai_credential_cleared p h))

ai_provider_name_named : (p : AiProvider) → is_empty (ai_provider_name p) ≡ false
unfolding ai_provider_name
ai_provider_name_named AiProvider.deep_seek = refl
ai_provider_name_named AiProvider.open_ai = refl
ai_provider_name_named AiProvider.silicon_flow = refl
ai_provider_name_named AiProvider.groq = refl
ai_provider_name_named AiProvider.custom = refl

plan_forgotten-is_removed :
    (s : InputSettings) (p : List Pending)
    → s.online.ai_credential_cleared ≡ true
    → is_removed (ai_entry s) (plan_forgotten s p) ≡ true
unfolding plan_forgotten
plan_forgotten-is_removed s p cleared =
    let p1 = if s.online.ai_credential_cleared then plan_removal (ai_entry s) p else p in
    let p2 = if s.online.translation_credential_cleared then plan_removal deeplx_entry p1 else p1 in
    removal_then_kept (ai_entry s) (voice_entry s) s.voice_credential_cleared p2 (
      removal_then_kept (ai_entry s) deeplx_entry s.online.translation_credential_cleared p1 (
        removal_then_done (ai_entry s) s.online.ai_credential_cleared p cleared
          (ai_provider_name_named s.online.ai.provider)))

module _ {X : Type 0} (V : SecretStore X) (x : X) (before : InputSettings) (s : InputSettings) where
  plan_ai-Quiet :
      s.online.ai_credential_cleared ≡ true → Quiet (ai_entry s) (plan_ai V x before s [])
  unfolding plan_ai is_written
  plan_ai-Quiet cleared =
      if_intro (λ (pl : Plan). Quiet (ai_entry s) pl) s.online.ai.enabled _ (plan [])
        (λ b.
          subst (λ pl. Quiet (ai_entry s) pl)
            (sym (
              plan_credential-cleared V x s.online.ai_credential_cleared (ai_entry s)
                s.online.ai.token _ no_ai_credential cleared))
            (quiet_plan [] refl))
        (λ b. quiet_plan [] refl)

  plan_translation-Quiet :
      (p : List Pending)
      → is_written (ai_entry s) p ≡ false
      → Quiet (ai_entry s) (plan_translation V x before s p)
  unfolding plan_translation entry_eq kind_eq
  plan_translation-Quiet p h =
      if_intro (λ (pl : Plan). Quiet (ai_entry s) pl) (uses_translation_credential s) _ (plan p)
        (λ b. plan_credential-Quiet V x (ai_entry s) deeplx_entry _ [] none p refl h)
        (λ b. quiet_plan p h)

  plan_voice-Quiet :
      (p : List Pending)
      → is_written (ai_entry s) p ≡ false
      → Quiet (ai_entry s) (plan_voice V x before s p)
  unfolding plan_voice entry_eq kind_eq
  plan_voice-Quiet p h =
      if_intro (λ (pl : Plan). Quiet (ai_entry s) pl) s.voice.enabled _ (plan p)
        (λ b.
          if_intro (λ (pl : Plan). Quiet (ai_entry s) pl) (is_empty s.voice.provider)
            (refuse no_voice_provider) _ (λ c. quiet_refuse no_voice_provider)
            (λ c. plan_credential-Quiet V x (ai_entry s) (voice_entry s) _ _ _ p refl h))
        (λ b. quiet_plan p h)

  pub plan_all-Gone :
      s.online.ai_credential_cleared ≡ true → Gone (ai_entry s) (plan_all V x before s)
  unfolding plan_all
  plan_all-Gone cleared = then_plan-Gone (ai_entry s) _ _ (plan_ai-Quiet cleared) (λ p hp.
      then_plan-Gone (ai_entry s) _ _ (plan_translation-Quiet p hp) (λ q hq.
        then_plan-Gone (ai_entry s) _ _ (plan_voice-Quiet q hq) (λ r hr.
          gone_plan _
            (plan_forgotten-is_written (ai_entry s) s _
              (plan_abandoned-is_written (ai_entry s) before s r hr))
            (plan_forgotten-is_removed s _ cleared))))
