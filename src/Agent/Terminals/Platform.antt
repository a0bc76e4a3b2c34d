-- ===== src/Agent/Terminals/Platform.antt =====
-- What the manager of terminals calls on a host: agent/internal/pty/tmux.go or its stub, pty_unix.go and
-- pty_windows.go; and the rest of manager.go. `W` is the state of the tmux server.
use pocketclaude.Base.{
  ℕ, GoString, str_eq, Bool, true, false, Option, none, some, List, [], ◌∷◌, if◌then◌else◌,
}
use pocketclaude.Agent.SessionStore.{SessionStore}
use pocketclaude.Agent.Tmux.{
  Tmux, captured, not_captured, has_tmux, create_tmux_session, tmux_session_exists,
  capture_tmux_output, kill_tmux_session, resize_tmux_session,
}
use pocketclaude.Agent.Tmux.Stub
use pocketclaude.Agent.Terminals.{
  Session, Host, Manager, Effect, kill_tmux, kill_process, close_pty, close_win, is_alive,
}
use pocketclaude.Agent.Terminals.Output.{Tick, gone, failed, captured as pane}

-- The options of conpty.Start.
pub data ConPtyOption : Type 0 where
  dimensions : ℕ → ℕ → ConPtyOption
  work_dir : GoString → ConPtyOption

-- `pty_start` and `conpty_start` are the libraries of PTYs; `look_path` is exec.LookPath.
pub record Platform (W : Type 0) : Type 0 where
  pub windows : Bool
  pub look_path : GoString → Option GoString
  pub tmux : Tmux W
  pub pty_start : GoString → GoString → Option (ℕ × ℕ)
  pub conpty_start : GoString → List ConPtyOption → Option ℕ
  pub conpty_resize : ℕ → ℕ → ℕ → Option GoString
  pub signal : ℕ → Bool
  pub tick : ℕ → ℕ

-- An error is nil.
abbrev pub is_nil : Option GoString → Bool
is_nil none = true
is_nil (some err) = false

module _ {W : Type 0} (p : Platform W) where
  unfoldable pub start_pty : GoString → GoString → Option (ℕ × ℕ)
  start_pty command dir = if p.windows then none else p.pty_start command dir

  unfoldable pub new_windows_session : GoString → GoString → ℕ → ℕ → Option ℕ
  new_windows_session command dir width height =
      p.conpty_start command
        (dimensions width height ∷ (if str_eq dir [] then [] else work_dir dir ∷ []))

  -- What the manager sees of the host while the tmux server is in a state.
  unfoldable pub host_of : W → Host
  unfolding start_pty new_windows_session
  host_of w = record {
    windows = p.windows;
    has_tmux = if p.windows then Stub.has_tmux else has_tmux p.look_path;
    create_tmux = λ id command dir. is_nil (
        if p.windows
        then Stub.create_tmux_session id command dir
        else (create_tmux_session p.tmux id command dir w).1);
    tmux_exists = λ id.
        if p.windows then Stub.tmux_session_exists id else (tmux_session_exists p.tmux id w).1;
    start_pty = start_pty;
    new_windows_session = λ command dir. new_windows_session command dir 120 40;
    signal = p.signal;
    tick = p.tick;
  }

  -- What an effect of the manager does to the tmux server.
  unfoldable pub apply_effect : Effect → W → W
  apply_effect (kill_tmux id) w = if p.windows then w else (kill_tmux_session p.tmux id w).0
  apply_effect (kill_process pid) w = w
  apply_effect (close_pty pty) w = w
  apply_effect (close_win win) w = w

  unfoldable pub apply_all : List Effect → W → W
  unfolding apply_effect
  apply_all [] w = w
  apply_all (e ∷ es) w = apply_all es (apply_effect e w)

  -- A tick of pollTmuxOutput for a session.
  unfoldable pub tick_of : GoString → W → W × Tick
  tick_of id w =
      let (w', exists) = tmux_session_exists p.tmux id w in
      let (w'', out) = capture_tmux_output p.tmux id w' in
      if exists
      then (w'', elim out [ captured current ↦ pane current | not_captured err ↦ failed ])
      else (w', gone)

  -- Session.Resize and its error. A PTY of Unix without tmux is not resized.
  unfoldable pub resize : Session → ℕ → ℕ → W → W × Option GoString
  resize s rows cols w =
      if s.uses_tmux
      then (if p.windows
          then (w, Stub.resize_tmux_session s.id cols rows)
          else resize_tmux_session p.tmux s.id cols rows w)
      else if p.windows
      then (w, elim s.win_session [ none ↦ none | some win ↦ p.conpty_resize win cols rows ])
      else (w, none)

-- SessionInfo, and the method Info.
pub record SessionInfo : Type 0 where
  pub id : GoString
  pub command : GoString
  pub project_dir : GoString
  pub alive : Bool
  pub start_time : ℕ

unfoldable pub info_of : Host → Session → SessionInfo
info_of host s = record {
  id = s.id;
  command = s.command;
  project_dir = s.project_dir;
  alive = is_alive host s;
  start_time = s.start_time;
}

abbrev pub set_store : {D : Type 0} → SessionStore → Manager D → Manager D
set_store store m = record m { store = some store }
