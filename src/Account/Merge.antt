-- ===== src/Account/Merge.antt =====
-- The settings that `upload_preferences` of src/account/AccountSession.cpp sends.
use msime_linux.Base.{
  Option, none, some, false, [], ◌∷◌, Bytes, bytes_eq, bytes_eq_iff, ◌≡◌, ◌≢◌, refl, ◌∙◌, sym, ap,
  if◌then◌else◌, inl, inr, Bool-cases,
}
use msime_linux.Account.Types.{PreferenceValue, Settings, comes_before, set_setting, merge_settings}

-- The value under a key.
unfoldable pub setting : Bytes → Settings → Option PreferenceValue
setting key [] = none
setting key ((k, v) ∷ rest) = if bytes_eq key k then some v else setting key rest

-- The value under a key of a list in which a later entry takes the place of an earlier one.
unfoldable pub last_setting : Bytes → Settings → Option PreferenceValue → Option PreferenceValue
last_setting key [] before = before
last_setting key ((k, v) ∷ rest) before =
    last_setting key rest (if bytes_eq key k then some v else before)

bytes_differ : (k l : Bytes) → bytes_eq k l ≡ false → k ≢ l
bytes_differ k l h e = absurd (cc (h, (bytes_eq_iff k l).1 e))

replaced_value :
    (key k l : Bytes) (value v : PreferenceValue) (rest : Settings)
    → k ≡ l
    → setting key ((k, value) ∷ rest)
      ≡ (if bytes_eq key k then some value else if bytes_eq key l then some v else setting key rest)
unfolding setting
replaced_value key k l value v rest e =
    rw⁻¹ e (elim (Bool-cases (bytes_eq key k)) [ inl h ↦ rw h refl | inr h ↦ rw h refl ])

later_value :
    (key k l : Bytes) (value v : PreferenceValue) (rest : Settings) (found : Option PreferenceValue)
    → bytes_eq k l ≡ false
    → found ≡ (if bytes_eq key k then some value else setting key rest)
    → (if bytes_eq key l then some v else found)
      ≡ (if bytes_eq key k then some value else if bytes_eq key l then some v else setting key rest)
later_value key k l value v rest found other h = elim (Bool-cases (bytes_eq key l)) [
  | inl here ↦ elim (Bool-cases (bytes_eq key k)) [
    | inl also ↦
        absurd
          (bytes_differ k l other (sym ((bytes_eq_iff key k).0 also) ∙ (bytes_eq_iff key l).0 here))
    | inr differs ↦ rw here (rw differs refl)
  ]
  | inr differs ↦ rw differs h
]

setting-set_setting :
    (key k : Bytes) (value : PreferenceValue) (s : Settings)
    → setting key (set_setting k value s) ≡ (if bytes_eq key k then some value else setting key s)
unfolding setting set_setting
setting-set_setting key k value [] = refl
setting-set_setting key k value ((l, v) ∷ rest) = elim (Bool-cases (bytes_eq k l)) [
  | inl same ↦ rw same (replaced_value key k l value v rest ((bytes_eq_iff k l).0 same))
  | inr other ↦ rw other (elim (Bool-cases (comes_before k l)) [
    | inl first ↦ rw first refl
    | inr after ↦ rw after (
        later_value key k l value v rest (setting key (set_setting k value rest)) other
          (setting-set_setting key k value rest))
  ])
]

-- The settings that are sent have, under every key, the local value where there is one, and the
-- reviewed remote value where there is none: no remote setting is lost and no local one is left out.
pub setting-merge_settings :
    (key : Bytes) (local remote : Settings)
    → setting key (merge_settings remote local) ≡ last_setting key local (setting key remote)
unfolding merge_settings last_setting
setting-merge_settings key [] remote = refl
setting-merge_settings key ((k, v) ∷ local) remote =
    setting-merge_settings key local (set_setting k v remote)
    ∙ ap (last_setting key local) (setting-set_setting key k v remote)
