-- ===== src/Account/Tests.antt =====
-- Concrete runs of an account session (src/account/AccountSession.cpp): an account service whose
-- clock is the number that is its state, and a keyring that cannot remove its record.
use msime_linux.Base.{
  ℕ, none, some, true, false, [], ◌∷◌, ◌==◌, bytes_eq, ◌≡◌, refl, if◌then◌else◌, arith,
}
use msime_linux.Account.Types.{
  User, Tokens, SavedSession, failure, other, PreferenceValue, merge_settings,
}
use msime_linux.Account.Monad.{
  done, threw, nothing, Members, cancelled_failure, ◌>>=◌, after, outside, give, get, require,
  throw,
}
use msime_linux.Account.Session
use msime_linux.Account.Session.{Services}
use msime_linux.Account.Operations
use msime_linux.Account.Meets.{user_id, Meets, Fixed-refl}
use msime_linux.Account.Access.{Failed}
use msime_linux.Account.Granted.{Granted, authorized-Granted}
use msime_linux.Account.Preferences
use msime_linux.Account.Actions.{Action, perform, run, ignore}
use msime_linux.Account.Run.{run_keeps_user}
use msime_linux.Account.Refused.{late_action_refused, generation_of, is_late}
use msime_linux.Account.Ended.{Ended, logout_ends, refused_token_ends}
use msime_linux.Account.Restore.{restore-restore, restore_retry}
use msime_linux.Account.Merge.{setting, last_setting, setting-merge_settings}

abbrev toy_user : User
toy_user = record { id = 65 ∷ []; display_name = 66 ∷ []; created_at = [] }

abbrev toy_tokens : Tokens
toy_tokens = record {
  access_token = 5 ∷ [];
  refresh_token = 6 ∷ [];
  expires_in = 3600;
  user = toy_user;
}

abbrev toy_saved : SavedSession
toy_saved = record { tokens = toy_tokens; expires_at = 3000 }

abbrev toy : Services ℕ ℕ ℕ
toy = record {
  clock = λ w. (done w, w);
  load = λ w. if w == 1 then (threw (other 1), 2000) else (done (some toy_saved), w);
  save = λ x1 w. (done nothing, w);
  clear = λ w. (threw (other 2), w);
  challenge = λ x1 x2 x3 x4 w. (threw (other 0), w);
  login = λ x1 x2 x3 x4 w. (done toy_tokens, w);
  refresh = λ x1 x2 w. (done (record toy_tokens { access_token = 7 ∷ [] }), w);
  profile = λ x1 x2 w. (threw (other 0), w);
  rename = λ x1 x2 x3 w. (threw (other 0), w);
  preferences = λ x1 x2 w. (threw (other 0), w);
  preferences_schema = λ x1 x2 w. (threw (other 0), w);
  put_preferences = λ x1 x2 x3 x4 w. (threw (other 0), w);
  clipboard = λ x1 x2 x3 w. (threw (failure 401 false), w);
  set_clipboard_enabled = λ x1 x2 x3 w. (threw (other 0), w);
  add_clipboard = λ x1 x2 x3 w. (threw (other 0), w);
  delete_clipboard = λ x1 x2 x3 w. (threw (other 0), w);
  dictionary = λ x1 x2 x3 x4 x5 x6 w. (threw (other 0), w);
  dictionary_catalog = λ x1 x2 x3 x4 x5 x6 x7 w. (threw (other 0), w);
  manage_dictionary = λ x1 x2 x3 x4 x5 x6 w. (threw (other 0), w);
  edit_dictionary = λ x1 x2 x3 x4 x5 x6 w. (threw (other 0), w);
  import_dictionary = λ x1 x2 x3 x4 x5 w. (threw (other 0), w);
  import_han_dictionary = λ x1 x2 x3 x4 w. (threw (other 0), w);
  export_dictionary = λ x1 x2 x3 x4 w. (threw (other 0), w);
  download_snapshot = λ x1 x2 x3 w. (threw (other 0), w);
  restore_snapshot = λ x1 x2 x3 x4 x5 w. (threw (other 0), w);
  logout = λ x1 x2 x3 w. (done nothing, w);
  delete_account = λ x1 x2 w. (done nothing, w);
}

-- Signed in, with the clock at 2000: the token is good for 1000 seconds more.
abbrev fresh : Members ℕ
fresh = record { restored = true; generation = 4; session = some toy_saved; world = 2000 }

-- The token is about to expire.
abbrev stale : Members ℕ
stale = record fresh { world = 2950 }

-- Not restored, and a keyring that fails once.
abbrev unrestored : Members ℕ
unrestored = record { restored = false; generation = 0; session = none; world = 1 }

abbrev started : Members ℕ
started = record unrestored { world = 2000 }

authorized-Granted_example :
    Meets (Granted stale 4) (Failed stale) (Session.authorized toy 4 none stale)
authorized-Granted_example = authorized-Granted toy stale stale 4 none (Fixed-refl stale)

run_keeps_user_example :
    user_id (run toy (Action.access_token 4 none ∷ Action.profile 4 none ∷ []) stale).session
    ≡ user_id stale.session
unfolding Session.authorized Session.require_generation Session.check_cancelled Session.signed_in
    Session.found Session.read_clock Session.clock_is_valid ◌>>=◌ after outside give require throw
    run perform ignore Preferences.profile Preferences.read_profile Session.guarded
    Session.on_failure Session.refresh_session Session.saved Session.hold bytes_eq
run_keeps_user_example =
    run_keeps_user toy (Action.access_token 4 none ∷ Action.profile 4 none ∷ []) stale (omega arith)
      refl

late_action_refused_example :
    perform toy (Action.clipboard 3 [] none) fresh ≡ (threw cancelled_failure, fresh)
unfolding generation_of is_late
late_action_refused_example = late_action_refused toy (Action.clipboard 3 [] none) fresh refl

logout_ends_example : Ended toy 4 (Operations.logout toy 4 false none fresh).1
unfolding Session.authorized Session.require_generation Session.check_cancelled Session.signed_in
    Session.found Session.read_clock Session.clock_is_valid ◌>>=◌ after outside give require throw
logout_ends_example = logout_ends toy 4 false none fresh fresh (5 ∷ []) 2000 refl refl

refused_token_ends_example :
    Ended toy 4 (Operations.with_token toy 4 none (λ t. outside (toy.clipboard t [] none)) fresh).1
unfolding Session.authorized Session.require_generation Session.check_cancelled Session.signed_in
    Session.found Session.read_clock Session.clock_is_valid ◌>>=◌ after outside give require throw
refused_token_ends_example =
    refused_token_ends toy 4 none (λ t. toy.clipboard t [] none) fresh fresh (5 ∷ []) 2000 false
      refl refl

abbrev restored_members : Members ℕ
restored_members = record {
  restored = true;
  generation = 1;
  session = some toy_saved;
  world = 2000;
}

restore-restore_example :
    Session.restore toy restored_members
    ≡ (done (record { generation = 1; user = some toy_user }), restored_members)
unfolding Session.restore Session.load_session Session.replace Session.mark_restored Session.current
    Session.next_generation Session.user_of ◌>>=◌ after outside give get
restore-restore_example =
    restore-restore toy started restored_members (record { generation = 1; user = some toy_user })
      refl

restore_retry_example :
    (started.session ≡ unrestored.session)
    × (started.generation ≡ unrestored.generation)
    × (started.restored ≡ false)
    × (Session.restore toy started ≡ (
      done (record {
        generation = Session.next_generation 0;
        user = Session.user_of (some toy_saved);
      }),
      record {
        restored = true;
        generation = Session.next_generation 0;
        session = some toy_saved;
        world = 2000;
      },
    ))
unfolding Session.restore Session.load_session Session.replace Session.mark_restored Session.current
    Session.next_generation Session.user_of ◌>>=◌ after outside give get
restore_retry_example =
    restore_retry toy unrestored started (other 1) (some toy_saved) 2000 refl refl

setting-merge_settings_example :
    setting (1 ∷ []) (
      merge_settings
        ((1 ∷ [], PreferenceValue.flag true) ∷ [])
        ((2 ∷ [], PreferenceValue.flag false) ∷ []))
    ≡ last_setting
        (1 ∷ [])
        ((2 ∷ [], PreferenceValue.flag false) ∷ [])
        (setting (1 ∷ []) ((1 ∷ [], PreferenceValue.flag true) ∷ []))
setting-merge_settings_example =
    setting-merge_settings (1 ∷ []) ((2 ∷ [], PreferenceValue.flag false) ∷ [])
      ((1 ∷ [], PreferenceValue.flag true) ∷ [])
