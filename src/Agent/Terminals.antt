-- ===== src/Agent/Terminals.antt =====
-- agent/internal/pty/manager.go. What the operating system answers is the record Host; what the
-- manager does to it is a list of effects, in order. `D` is the disk of the session store.
pub mod Lifecycle
pub mod Restoring
pub mod Restart
pub mod Output
pub mod Streaming
pub mod Reading
pub mod Platform
pub mod Stopping
pub mod Surviving
pub mod Releasing
use pocketclaude.Base.{
  ℕ, ◌<◌, GoString, text, str_eq, Bool, true, false, not, ◌&&◌, Option, none, some, List, [], ◌∷◌,
  ◌++◌, if◌then◌else◌,
}
use pocketclaude.Base.GoMap.{GoMap, lookup, insert, delete, values}
use pocketclaude.Agent.SessionStore.{
  StoredSession, StoreIo, SessionStore, Stored, load, put, delete_session,
  list_sessions as stored_sessions,
}

-- Processes, PTY files and Windows consoles by their handles.
pub record Session : Type 0 where
  pub id : GoString
  pub command : GoString
  pub project_dir : GoString
  pub process : Option ℕ
  pub pty_file : Option ℕ
  pub win_session : Option ℕ
  pub uses_tmux : Bool
  pub start_time : ℕ
  pub closed : Bool

pub data Effect : Type 0 where
  kill_tmux : GoString → Effect
  kill_process close_pty close_win : ℕ → Effect

-- `start_pty` gives the PTY and the process of a command in a directory; the Windows console has one
-- handle. `signal` is whether Process.Signal with a nil signal returns no error. `tick` is what the
-- next time.Now() returns, by what the last one did.
pub record Host : Type 0 where
  pub windows : Bool
  pub has_tmux : Bool
  pub create_tmux : GoString → GoString → GoString → Bool
  pub tmux_exists : GoString → Bool
  pub start_pty : GoString → GoString → Option (ℕ × ℕ)
  pub new_windows_session : GoString → GoString → Option ℕ
  pub signal : ℕ → Bool
  pub tick : ℕ → ℕ

pub record Manager (D : Type 0) : Type 0 where
  pub sessions : GoMap Session
  pub use_tmux : Bool
  pub store : Option SessionStore
  pub disk : D
  pub effects : List Effect

unfoldable pub new_manager : {D : Type 0} → Host → D → Manager D
new_manager host disk = record {
  sessions = [];
  use_tmux = not host.windows && host.has_tmux;
  store = none;
  disk = disk;
  effects = [];
}

-- A session that nothing runs for yet.
abbrev pub blank : GoString → GoString → GoString → ℕ → Session
blank id command project_dir now = record {
  id = id;
  command = command;
  project_dir = project_dir;
  process = none;
  pty_file = none;
  win_session = none;
  uses_tmux = false;
  start_time = now;
  closed = false;
}

-- The session of a tmux session that is found again.
abbrev pub restored : StoredSession → Session
restored ss = record (blank ss.id ss.command ss.project_dir ss.created_at) { uses_tmux = true }

unfoldable pub start_unix_session : Host → Session → Option Session
start_unix_session host s = elim (host.start_pty s.command s.project_dir) [
  | none ↦ none
  | some (pty, pid) ↦ some (record s { process = some pid; pty_file = some pty })
]

unfoldable pub start_windows_session : Host → Session → Option Session
start_windows_session host s = elim (host.new_windows_session s.command s.project_dir) [
  | none ↦ none
  | some win ↦ some (record s { win_session = some win })
]

abbrev pub entered_at : Host → ℕ → ℕ
entered_at host now = host.tick (host.tick (host.tick now))

-- What is released when a session is destroyed.
abbrev pub each : (ℕ → Effect) → Option ℕ → List Effect
each f none = []
each f (some h) = f h ∷ []

abbrev pub handles : Session → List Effect
handles s = each kill_process s.process ++ each close_pty s.pty_file ++ each close_win s.win_session

unfoldable pub release : GoString → Session → List Effect
release id s = (if s.uses_tmux then kill_tmux id ∷ [] else []) ++ handles s

-- Where WriteInput sends its data.
pub data InputRoute : Type 0 where
  closed_session no_writer : InputRoute
  to_tmux : GoString → InputRoute
  to_windows to_pty : ℕ → InputRoute

unfoldable pub write_input : Host → Session → InputRoute
write_input host s =
    if s.closed
    then closed_session
    else if s.uses_tmux
    then to_tmux s.id
    else elim (if host.windows then s.win_session else none) [
      | some win ↦ to_windows win
      | none ↦ elim s.pty_file [ some pty ↦ to_pty pty | none ↦ no_writer ]
    ]

unfoldable pub is_alive : Host → Session → Bool
is_alive host s = if s.uses_tmux then host.tmux_exists s.id else elim s.process [
  | none ↦ elim (if host.windows then s.win_session else none) [
    | none ↦ false
    | some _ ↦ not s.closed
  ]
  | some pid ↦ if not host.windows then host.signal pid else not s.closed
]

module _ {D : Type 0} (io : StoreIo D) (host : Host) where
  -- An operation of the store, if there is one; its error is ignored.
  unfoldable pub with_store : (SessionStore → D → Stored D) → Manager D → Manager D
  with_store f m = elim m.store [
    | none ↦ m
    | some st ↦ record m { store = some (f st m.disk).store; disk = (f st m.disk).disk }
  ]

  -- The started session, and whether tmux goes on to be used.
  unfoldable pub start_session : Bool → Session → Option Session × Bool
  unfolding start_unix_session start_windows_session
  start_session use_tmux s =
      if use_tmux && not host.windows
      then (if host.create_tmux s.id s.command s.project_dir
          then (some (record s { uses_tmux = true }), use_tmux)
          else (start_unix_session host s, false))
      else if host.windows
      then (start_windows_session host s, use_tmux)
      else (start_unix_session host s, use_tmux)

  abbrev pub stored_of : Session → ℕ → StoredSession
  stored_of s now = record {
    id = s.id;
    command = s.command;
    project_dir = s.project_dir;
    uses_tmux = s.uses_tmux;
    created_at = host.tick now;
    last_seen_at = host.tick (host.tick now);
  }

  -- CreateSession once the session runs: the store reads the clock after both times of the entry.
  unfoldable pub enter_session : ℕ → Session → Manager D → Manager D
  unfolding with_store
  enter_session now s m =
      with_store (put io (entered_at host now) (stored_of s now))
        (record m { sessions = insert s.id s m.sessions })

  -- `id` is the new UUID.
  unfoldable pub create_session :
      GoString → ℕ → GoString → GoString → Manager D → Manager D × Option Session
  unfolding start_session enter_session
  create_session id now project_dir command m =
      let run = if str_eq command [] then text "claude" else command in
      let (started, use_tmux) = start_session m.use_tmux (blank id run project_dir now) in
      let m' = record m { use_tmux = use_tmux } in
      elim started [ none ↦ (m', none) | some s ↦ (enter_session now s m', some s) ]

  abbrev pub get_session : Manager D → GoString → Option Session
  get_session m id = lookup id m.sessions

  abbrev pub list_sessions : Manager D → List Session
  list_sessions m = values m.sessions

  -- The part of DestroySession for a session that is not closed.
  unfoldable pub destroy_open : GoString → Session → Manager D → Manager D
  unfolding release with_store
  destroy_open id s m =
      with_store (delete_session io id)
        (record m { sessions = delete id m.sessions; effects = m.effects ++ release id s })

  -- The session as its holders see it afterwards; `none` is the error.
  unfoldable pub destroy_session : GoString → Manager D → Manager D × Option Session
  unfolding destroy_open
  destroy_session id m = elim (lookup id m.sessions) [
    | none ↦ (m, none)
    | some s ↦
        if s.closed
        then (record m { sessions = delete id m.sessions }, some s)
        else (destroy_open id s m, some (record s { closed = true }))
  ]

  -- CloseAll does not kill the tmux sessions.
  unfoldable pub all_handles : List Session → List Effect
  all_handles [] = []
  all_handles (s ∷ ss) = handles s ++ all_handles ss

  unfoldable pub close_all : Manager D → Manager D
  unfolding all_handles
  close_all m = record m { sessions = []; effects = m.effects ++ all_handles (values m.sessions) }

  -- The body of the loop of RestoreSessions.
  unfoldable pub restore_one : ℕ → StoredSession → Manager D → Manager D
  unfolding with_store
  restore_one now ss m =
      if not ss.uses_tmux
      then m
      else if not (host.tmux_exists ss.id)
      then with_store (delete_session io ss.id) m
      else with_store (put io now ss)
          (record m { sessions = insert ss.id (restored ss) m.sessions })

  unfoldable pub restore_all : ℕ → List StoredSession → Manager D → Manager D
  unfolding restore_one
  restore_all now [] m = m
  restore_all now (ss ∷ stored) m = restore_all now stored (restore_one now ss m)

  -- The manager, and whether there was no error.
  unfoldable pub restore_sessions : ℕ → Manager D → Manager D × Bool
  unfolding restore_all
  restore_sessions now m = elim (if m.use_tmux then m.store else none) [
    | none ↦ (m, true)
    | some st ↦
        (let (st', fine) = load io st m.disk in
          let m' : Manager D = record m { store = some st' } in
          if fine then (restore_all now (stored_sessions io st') m', true) else (m', false))
  ]
