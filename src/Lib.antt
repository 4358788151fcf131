-- ===== src/Lib.antt =====
-- The core of the Linux input method: what the keys that a user types do to the composition and to
-- the application, the session of the signed-in account, and the settings.
--
-- The program's parts. The frontend (src/IBusEngine.cpp) hands key events to one InputController
-- (src/InputController.cpp), which drives a session of the external composition library, turns
-- marks into Chinese punctuation and full-width characters with the functions of
-- src/TextTransform.cpp, and numbers every state of the composition, so that a background service
-- (src/online) can bring an answer back later and the controller can tell whether it is still
-- wanted. Separately, an AccountSession (src/account/AccountSession.cpp) keeps the signed-in
-- account: it asks the account service over the network, keeps its record in the keyring, and
-- numbers the accounts in turn, so that a late result of a worker cannot reach another account. The
-- SettingsStore (src/SettingsStore.cpp) keeps the settings in a key file and the providers'
-- credentials in a credential service; the settings window edits them through SettingsUiModel, and
-- src/online/EndpointPolicy.cpp decides to which endpoints requests may go.
--
-- Base: Boolean tests, lists on native numbers, byte strings, finite tables and bit operations.
--
-- Text models src/TextTransform.cpp and src/TextTransform.h. Text.Marks holds the marks as bytes
-- and is_punctuation, should_keep_ascii_punctuation and paired_punctuation_closing; Text.Utf8
-- encode_utf8; Text.Width to_full_width; Text.Formatter the class PunctuationFormatter, whose
-- `chinese` gives the bytes and the formatter afterwards. Bytes are numbers below 256, and code
-- points natural numbers. The nesting depth of book titles is a natural number without an upper
-- bound, where the source counts in an `int`: they differ from 2^31 unclosed book titles on.
--
-- Controller models src/InputController.cpp and src/InputController.h. Controller.Types has the
-- enums and structs of the header and `Engine`, the interface of the composition library: the calls
-- that the controller makes, each giving the session that it leaves. Controller.State has the
-- members as a record, `renew` for the statement `online_generation_ = next_online_generation()`,
-- and finish_composition_mutation; Controller.Candidates moves and selects candidates;
-- Controller.Modes changes modes, locks, width and scheme; Controller.Punctuation is
-- commit_punctuation in the parts of its body; Controller.Keys is handle_key by groups of keys;
-- Controller.Online is online_request and apply_online_candidate; Controller.Construct is the
-- constructor, given the session that the library makes; Controller.Actions lists the operations of
-- the frontend, the online answers that come back included, and runs sequences of them. An operation returns its result and the members, or
-- throws with the members as they are then: `next_online_generation` throws when the 64-bit
-- sequence is used up. That sequence is shared by all controllers of the process; it is a member
-- here, so what another controller draws during a sequence of operations is not described.
-- Positions are `std::size_t`, with wrap-around written out. A time is a number of nanoseconds that
-- the caller passes in. The theorems that need it name what they ask of the library: a call that it
-- reports as not handled leaves the composition as it is, as does a candidate that it refuses.
--
-- KeyMapper models src/IBusKeyMapper.cpp. KeyMapper.Types has the key symbols that ibus.h defines
-- as a record of numbers, and a `guint state` as the set of those modifier bits that the mapper
-- reads; KeyMapper.Tracker the class IBusModeToggleTracker, whose `chord_held` is a field of the
-- record; KeyMapper.Translate translate_ibus_key. A `char` of an event is its code.
--
-- Online.Endpoint models src/online/EndpointPolicy.cpp.
--
-- Settings models src/SettingsStore.cpp with src/SettingsStore.h, src/SecretStore.h and the
-- settings of src/VoiceInput.h and src/online/AiSuggestionProvider.h, and the edits of
-- src/SettingsUiModel.cpp. Settings.Types has the structs and their defaults; Settings.Names the
-- names of the enumerations and their readers; Settings.Valid the validators, each a list of
-- conditions that all have to hold, where the conditions that an enumeration has a name are left
-- out, since every value here has one. Settings.KeyFile is the interface of GLib's key files: it
-- holds raw values, which are written and read as strings, Booleans and integers, and KeyFileLaws
-- is what GLib documents of that, for the names of Settings.Places and the integers of a `gint`. Settings.Load is `load` in groups of keys, Settings.Save the
-- calls that fill the key file, and Settings.Disk save_unlocked, save and version with the file,
-- the file put aside and the temporary file; what the system answers to the calls of one save is a
-- record, and `write` may be cut short and interrupted any finite number of times. A place that is
-- a directory or a device is `irregular`. The lock file and the directory are answers of the
-- system. Settings.Secrets has the interface of the credential service, whose state a lookup does
-- not change, and the `load` that asks it; Settings.Plan and Settings.Commit are
-- save_with_secrets_unlocked before and from its first change, and save_if_unchanged. Text is
-- bytes, and no text holds a zero byte that GLib would stop at, since the validators refuse it.
-- Settings.Parse and Settings.Edit are SettingsUiModel::set, where a chain of comparisons of an id
-- is `select` in a list of pairs, and `after` gives the settings of the model after the edit.
--
-- Account models src/account/AccountSession.cpp with the structs of
-- src/account/BackendAccountClient.h. Account.Monad has operations that keep their changes when
-- they throw; Account.Session the members, the interface `Services` (BackendAccountClient,
-- AccountCredentialStore and the clock, as functions of an outside world that may answer anything
-- and may throw), restore, login, discard and authorized; Account.Preferences the profile and the
-- settings; Account.Operations linking, signing out and the methods that are one or two calls with
-- a token; Account.Actions all public methods as one type. The `catch` block that the source writes
-- in each method is `guarded`. The mutex makes every method one step, so a sequence of calls stands
-- for all interleavings of the worker threads. 64-bit integers are bit patterns, the generation
-- wraps around, and the clock counts seconds from 1970, with every reading before that as 0, which
-- the source refuses as well.
--
-- Not modelled: drawing and windows with the rows and labels of the settings window, the D-Bus and
-- GTK glue, the network transport and the decoding of its answers, the dictionary files, voice and
-- handwriting. The composition library is not part of the repository, so it is an interface only.
pub mod Base
pub mod Text
pub mod Controller
pub mod Account
pub mod Online
pub mod Settings
pub mod KeyMapper
