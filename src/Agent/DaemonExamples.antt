-- ===== src/Agent/DaemonExamples.antt =====
-- The life of a daemon at concrete inputs.
use mathlib.Core.List.{Perm}
use pocketclaude.Base.{
  ℕ, GoString, text, str_eq, refl, true, false, Option, some, none, List, [], ◌∷◌, ◌++◌,
}
use pocketclaude.Base.GoMap.{lookup, insert}
use pocketclaude.Agent.Examples.{clear}
use pocketclaude.Agent.TerminalExamples.{without_tmux}
use pocketclaude.Agent.ApiExamples.{plain_io, services, idle}
use pocketclaude.Agent.Api.Protocol.{JsonRpcResponse}
use pocketclaude.Agent.Api.{Agent, Services, handle_message, dispatch, handle_session_create}
use pocketclaude.Agent.Terminals.{
  Effect, kill_process, close_pty, new_manager, create_session, start_session, start_unix_session,
  enter_session, with_store,
}
use pocketclaude.Agent.Terminals.Releasing.{released, opened}
use pocketclaude.Agent.Terminals.Releasing.Balance.{held}
use pocketclaude.Agent.KeyExamples.{config_io, with_phone}
use pocketclaude.Agent.Commands.{start_terminals}
use pocketclaude.Agent.Terminals.{restore_sessions}
use pocketclaude.Agent.Daemon.{
  Daemon, Reach, begins, frames, signals, closes_relay, closes_server, closes_terminals, waiting,
  returning, take_frame, close_terminals, opened_by, opened_by_request, is_running,
}
use pocketclaude.Agent.Daemon.Ending.{HasClosed, Reach-Perm}

abbrev coded : JsonRpcResponse ℕ → Option GoString
coded resp = some (text "{}")

abbrev on_unix : Services GoString ℕ
on_unix = record services { host = without_tmux }

abbrev empty : Agent GoString ℕ
empty = record idle {
  terminals = start_terminals clear config_io with_phone on_unix.store_io without_tmux 0 [];
}

abbrev at_start : Daemon GoString ℕ
at_start = record {
  place = waiting;
  gateway = record { agent = empty; e2e_cipher = none; sent = [] };
  relay_closed = false;
  serving = true;
}

abbrev with_session : Daemon GoString ℕ
with_session =
    take_frame clear plain_io on_unix coded (text "phone") (text "n") 4 (text "session.create")
      at_start

abbrev stopped : Daemon GoString ℕ
stopped = record with_session { place = returning; relay_closed = true; serving = false }

abbrev ended : Daemon GoString ℕ
ended = close_terminals clear plain_io on_unix coded (text "phone") stopped

abbrev owed_effects : List Effect
owed_effects = kill_process 77 ∷ close_pty 5 ∷ []

one_frame : Reach clear plain_io on_unix coded (text "phone") empty none with_session owed_effects
unfolding take_frame opened_by opened_by_request opened handle_message dispatch
    handle_session_create create_session start_session start_unix_session enter_session with_store
    new_manager str_eq insert lookup is_running start_terminals restore_sessions
one_frame = frames begins (text "n") 4 (text "session.create") refl refl

ends : Reach clear plain_io on_unix coded (text "phone") empty none ended owed_effects
unfolding take_frame
ends = closes_terminals (closes_server (closes_relay (signals one_frame refl) refl) refl) refl

Reach-Perm_example :
    let m = ended.gateway.agent.terminals in
    Perm owed_effects (released m.effects ++ held on_unix.store_io on_unix.host m.sessions)
    × HasClosed ended.place ended.relay_closed ended.serving m.sessions
Reach-Perm_example =
    Reach-Perm clear plain_io on_unix coded (text "phone") config_io with_phone 0 [] refl ends
