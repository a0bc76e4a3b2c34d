-- ===== src/Agent/TerminalExamples.antt =====
-- The session store and the terminal sessions at concrete inputs.
use pocketclaude.Base.{
  take, ℕ, zero, suc, GoString, text, str_eq, ◌≡◌, ◌≢◌, refl, sym, Bool, true, false, Option, some,
  none, List, [], ◌∷◌,
}
use mathlib.Core.Option.{some-injective}
use pocketclaude.Base.GoMap.{insert}
use pocketclaude.Agent.SessionStore.{StoredSession, bytes, StoreIo, SessionStore}
use pocketclaude.Agent.SessionStore.Persistence.{IsReliable}
use pocketclaude.Agent.Terminals.{Session, Host, Manager, new_manager, blank}
use pocketclaude.Agent.Sessions.{destroy, subscribe_output, new_manager as new_manager_of}
use pocketclaude.Agent.Sessions.Safety.{
  IsSound, start, next_step, subscribing, destroying, Reach-IsSound,
}
use pocketclaude.Agent.Terminals.Output.{Read, capacity, captured, failed, poll_tmux, read_output}
use pocketclaude.Agent.Terminals.Streaming.{
  last_captured, Ends, joined, all_read, poll_tmux-Ends, read_output_lem,
}

-- A coding that knows the empty list, and lists of one tmux session without a
-- directory, made at 0, whose id is one byte.
unfoldable pub plain_session :
    (id command project_dir : GoString) (uses_tmux : Bool) (created_at last_seen_at : ℕ)
    → Option GoString
plain_session (c ∷ []) command [] true zero last_seen_at = some (1 ∷ last_seen_at ∷ c ∷ command)
plain_session id command project_dir uses_tmux created_at last_seen_at = none

unfoldable pub marshal_few : List StoredSession → Option GoString
marshal_few [] = some (0 ∷ [])
marshal_few (ss ∷ []) =
    plain_session ss.id ss.command ss.project_dir ss.uses_tmux ss.created_at ss.last_seen_at
marshal_few (ss ∷ next ∷ more) = none

unfoldable seen_at : ℕ → ℕ → GoString → StoredSession
seen_at last_seen_at c command = record {
  id = c ∷ [];
  command = command;
  project_dir = [];
  uses_tmux = true;
  created_at = 0;
  last_seen_at = last_seen_at;
}

pub unmarshal_few : GoString → Option (List StoredSession)
unmarshal_few [] = none
unmarshal_few (zero ∷ b) = some []
unmarshal_few (suc k ∷ []) = none
unmarshal_few (suc k ∷ l ∷ []) = none
unmarshal_few (suc k ∷ l ∷ c ∷ command) = some (seen_at l c command ∷ [])

plain_session-coded :
    (id command project_dir : GoString) (uses_tmux : Bool) (created_at last_seen_at : ℕ)
    (b : GoString)
    → plain_session id command project_dir uses_tmux created_at last_seen_at ≡ some b
    → unmarshal_few b
      ≡ some (
          record {
            id = id;
            command = command;
            project_dir = project_dir;
            uses_tmux = uses_tmux;
            created_at = created_at;
            last_seen_at = last_seen_at;
          }
          ∷ [])
unfolding plain_session unmarshal_few seen_at
plain_session-coded [] m d t c l b e = cc
plain_session-coded (i ∷ j ∷ id) m d t c l b e = cc
plain_session-coded (i ∷ []) m (x ∷ d) t c l b e = cc
plain_session-coded (i ∷ []) m [] false c l b e = cc
plain_session-coded (i ∷ []) m [] true (suc c) l b e = cc
plain_session-coded (i ∷ []) m [] true zero l b e = rw (sym (some-injective _ _ e)) refl

plain_session-not_empty :
    (id command project_dir : GoString) (uses_tmux : Bool) (created_at last_seen_at : ℕ)
    (b : GoString)
    → plain_session id command project_dir uses_tmux created_at last_seen_at ≡ some b
    → b ≢ []
unfolding plain_session unmarshal_few
plain_session-not_empty id command project_dir uses_tmux c l [] e _ =
    cc (plain_session-coded id command project_dir uses_tmux c l [] e)
plain_session-not_empty id command project_dir uses_tmux c l (x ∷ b) e f = cc

marshal_few-coded :
    (l : List StoredSession) (b : GoString) → marshal_few l ≡ some b → unmarshal_few b ≡ some l
unfolding marshal_few unmarshal_few
marshal_few-coded [] b e = rw (sym (some-injective _ _ e)) refl
marshal_few-coded (ss ∷ []) b e =
    plain_session-coded ss.id ss.command ss.project_dir ss.uses_tmux ss.created_at ss.last_seen_at b
      e
marshal_few-coded (ss ∷ next ∷ more) b e = cc

marshal_few-not_empty : (l : List StoredSession) (b : GoString) → marshal_few l ≡ some b → b ≢ []
unfolding marshal_few
marshal_few-not_empty [] b e f = cc
marshal_few-not_empty (ss ∷ []) b e f =
    plain_session-not_empty ss.id ss.command ss.project_dir ss.uses_tmux ss.created_at
      ss.last_seen_at b e f
marshal_few-not_empty (ss ∷ next ∷ more) b e f = cc

-- A disk is what the file holds.
abbrev pub file_io : StoreIo GoString
file_io = record {
  marshal = marshal_few;
  unmarshal = unmarshal_few;
  read = bytes;
  mkdir_all = λ disk. (disk, true);
  write = λ disk b. (b, true);
}

pub file_io-IsReliable : IsReliable file_io
file_io-IsReliable = record {
  coded = marshal_few-coded;
  not_empty = marshal_few-not_empty;
  written = λ disk b _. refl;
}

abbrev work : StoredSession
work = seen_at 3 115 []

abbrev one_stored : SessionStore
one_stored = record { sessions = insert (text "s") work [] }

-- A Unix host with tmux, where only the session `s` is left of an earlier run.
abbrev pub unix : Host
unix = record {
  windows = false;
  has_tmux = true;
  create_tmux = λ id command dir. true;
  tmux_exists = λ id. str_eq id (text "s");
  start_pty = λ command dir. some (5, 77);
  new_windows_session = λ command dir. none;
  signal = λ pid. false;
  tick = λ t. t;
}

abbrev pub begun : Session
begun = record (blank (text "n") (text "claude") (text "/srv") 4) { uses_tmux = true }

abbrev running : Manager GoString
running = record (new_manager unix []) {
  sessions = insert (text "n") begun [];
  store = some one_stored;
}

poll_tmux-Ends_example :
    let ticks = captured (text "a") ∷ failed ∷ captured (text "ab") ∷ [] in
    Ends
      (text "ab")
      (joined (poll_tmux true ticks [] (record { channel = []; handled = [] })).1.handled)
unfolding last_captured
poll_tmux-Ends_example = poll_tmux-Ends (captured (text "a") ∷ failed ∷ captured (text "ab") ∷ [])

read_output_lem_example :
    let reads : List Read = (text "a", false) ∷ (text "b", true) ∷ [] in
    let t = read_output true reads (record { channel = []; handled = [] }) in
    (joined t.handled ≡ all_read reads) × (t.channel ≡ take capacity t.handled)
read_output_lem_example = read_output_lem ((text "a", false) ∷ (text "b", true) ∷ [])

-- A client subscribes to the session `n`, which is destroyed then.
Reach-IsSound_example :
    IsSound
      (destroy file_io unix
        (text "n")
        (subscribe_output file_io unix (text "n") (new_manager_of running)).0).0
Reach-IsSound_example =
    Reach-IsSound file_io unix running
      (destroy file_io unix (text "n")
        (subscribe_output file_io unix (text "n") (new_manager_of running)).0).0
      (next_step (subscribe_output file_io unix (text "n") (new_manager_of running)).0 _
        (next_step (new_manager_of running) _ start
          (subscribing (text "n") (new_manager_of running)))
        (destroying (text "n")
          (subscribe_output file_io unix (text "n") (new_manager_of running)).0))

abbrev pub without_tmux : Host
without_tmux = record unix { has_tmux = false }
