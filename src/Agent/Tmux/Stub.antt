-- ===== src/Agent/Tmux/Stub.antt =====
-- agent/internal/pty/tmux_stub.go, which stands for tmux.go on Windows.
use pocketclaude.Base.{ℕ, GoString, text, Bool, false, Option, some, []}
use pocketclaude.Agent.Tmux.{Captured, not_captured, Listing, listed}

abbrev pub not_available : GoString
not_available = text "tmux not available on Windows"

abbrev pub has_tmux : Bool
has_tmux = false

abbrev pub create_tmux_session : GoString → GoString → GoString → Option GoString
create_tmux_session name command dir = some not_available

abbrev pub tmux_session_exists : GoString → Bool
tmux_session_exists name = false

abbrev pub capture_tmux_output : GoString → Captured
capture_tmux_output name = not_captured not_available

abbrev pub write_tmux_input : GoString → GoString → Option GoString
write_tmux_input name input = some not_available

abbrev pub write_tmux_key : GoString → GoString → Option GoString
write_tmux_key name key = some not_available

abbrev pub kill_tmux_session : GoString → Option GoString
kill_tmux_session name = some not_available

abbrev pub list_tmux_sessions : Listing
list_tmux_sessions = listed []

abbrev pub resize_tmux_session : GoString → ℕ → ℕ → Option GoString
resize_tmux_session name width height = some not_available
