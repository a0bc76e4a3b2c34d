-- ===== src/Agent/ApiExamples.antt =====
-- The local API at concrete inputs.
use pocketclaude.Base.{
  ℕ, GoString, map, text, str_eq, Bool, some, none, List, [], ◌∷◌, ◌++◌, ◌≡◌, refl, true, false,
  not, ◌&&◌, ◌==◌, if◌then◌else◌,
}
use pocketclaude.Agent.Files.{Os}
use pocketclaude.Agent.Plugins.{new_registry}
use pocketclaude.Agent.Monitor.{MonitorIo}
use pocketclaude.Agent.Terminals.{
  new_manager, create_session, enter_session, with_store, start_session,
}
use pocketclaude.Agent.SessionStore.{StoreIo, bytes}
use pocketclaude.Agent.TerminalExamples.{unix, begun}
use pocketclaude.Agent.Api.Protocol.{
  JsonRpcRequest, SendInputParams, new_response, new_error, session, success, err_session_not_found,
}
use pocketclaude.Agent.Api.{ApiIo, Services, Agent, session_result, handle_message}
use pocketclaude.Agent.Api.Replies.{AsSpecified, handle_message-AsSpecified}
use pocketclaude.Agent.Api.Reading.{handle_message-reading}
use pocketclaude.Agent.Api.Sessions.{
  terminal_of, IsRequest, input_after_destroy, input_after_create,
}
use pocketclaude.Agent.Api.Serving.{ApiFrame, read_loop, dues, read_loop_lem}
use pocketclaude.Agent.Api.Clients.{Conn, Hub, broadcast_loop}
use pocketclaude.Agent.Api.Clients.Streams.{
  sent_to, until_failure, all_fine, is_client, broadcast_loop_lem,
}

abbrev pub request : GoString → GoString → JsonRpcRequest
request method params = record {
  jsonrpc = text "2.0";
  method = method;
  params = params;
  id = some (text "1");
}

-- A frame is the name of a method, about the session `n`.
abbrev pub plain_io : ApiIo
plain_io = record {
  unmarshal_request = λ raw. if str_eq raw [] then none else some (request raw (text "n"));
  create_of = λ b. some (record { session_id = []; project_dir = text "/srv"; command = [] });
  input_of = λ b. some (record { session_id = b; input = text "hi" });
  destroy_of = λ b. some b;
  path_of = λ b. none;
  write_of = λ b. none;
  git_params = record { dir_of = λ b. none; diff_of = λ b. none; log_of = λ b. none };
  id_of = λ b. none;
  text_of = λ e. text "error";
}

abbrev no_files : Os GoString ℕ
no_files = record {
  is_abs = λ p. true;
  clean = λ p. p;
  abs = λ p. some p;
  join = λ p q. p ++ q;
  dir = λ p. p;
  read_dir = λ s p. none;
  read_file = λ s p. none;
  mkdir_all = λ s p. (s, true);
  write_file = λ s p c. (s, true);
}

abbrev no_store : StoreIo GoString
no_store = record {
  marshal = λ l. none;
  unmarshal = λ b. none;
  read = λ disk. bytes [];
  mkdir_all = λ disk. (disk, false);
  write = λ disk b. (disk, false);
}

abbrev still : MonitorIo
still = record {
  os = text "linux";
  arch = [];
  hostname = none;
  go_version = [];
  num_cpu = 1;
  mem = record { alloc = 0; total_alloc = 0; sys = 0; num_gc = 0 };
  timestamp = [];
  since = λ t. [];
  num_goroutine = 1;
}

abbrev pub services : Services GoString ℕ
services = record {
  os = no_files;
  allowed_dirs = [];
  run_git = λ disk dir args. none;
  git_leaves = λ disk method params. disk;
  monitor_io = still;
  monitor = record { start_time = 0 };
  store_io = no_store;
  host = unix;
  accepts = λ route chunk. true;
}

abbrev pub idle : Agent GoString ℕ
idle = record { terminals = new_manager unix []; plugins = new_registry; inputs = [] }

handle_message-AsSpecified_example :
    AsSpecified plain_io services
      (plain_io.unmarshal_request (text "fs.read_dir"))
      idle
      (handle_message plain_io services (text "n") 4 (text "fs.read_dir") idle)
handle_message-AsSpecified_example =
    handle_message-AsSpecified plain_io services (text "n") 4 (text "fs.read_dir") idle

handle_message-reading_example :
    (handle_message plain_io services (text "n") 4 (text "session.list") idle).0 ≡ idle
unfolding pocketclaude.Base.has_prefix
handle_message-reading_example =
    handle_message-reading plain_io services (text "n") 4 (text "session.list") idle
      (request (text "session.list") (text "n")) (unfold str_eq in refl) (unfold str_eq in refl)

-- The frame `method` is a request of that method.
sends :
    (method : GoString)
    → str_eq method [] ≡ false
    → IsRequest plain_io method method (request method (text "n")) (text "1")
sends method e = record {
  parsed = rw (e) refl;
  versioned = unfold str_eq in refl;
  named = refl;
  identified = refl;
}

abbrev input : SendInputParams
input = record { session_id = text "n"; input = text "hi" }

input_after_destroy_example :
    let after = (handle_message plain_io services [] 4 (text "session.destroy") idle).0 in
    handle_message plain_io services [] 5 (text "session.send_input") after
    ≡ (after, some (new_error (some (text "1")) err_session_not_found (text "session not found")))
input_after_destroy_example =
    input_after_destroy plain_io services [] [] 4 5 (text "session.destroy")
      (text "session.send_input") (request (text "session.destroy") (text "n"))
      (request (text "session.send_input") (text "n")) (text "1") (text "1") input idle
      (sends (text "session.destroy") (unfold str_eq in refl)) refl
      (sends (text "session.send_input") (unfold str_eq in refl)) refl

input_after_create_example :
    let r = handle_message plain_io services (text "n") 4 (text "session.create") idle in
    let r' = handle_message plain_io services [] 5 (text "session.send_input") r.0 in
    (r.1 ≡ some (new_response (some (text "1")) (session (session_result begun true))))
    × (r'.1 ≡ some (new_response (some (text "1")) success))
    × (r'.0.inputs ≡ idle.inputs ++ (terminal_of unix begun, input.input ++ text "\n") ∷ [])
input_after_create_example =
    input_after_create plain_io services (text "n") [] 4 5 (text "session.create")
      (text "session.send_input") (request (text "session.create") (text "n"))
      (request (text "session.send_input") (text "n")) (text "1") (text "1")
      (record { session_id = []; project_dir = text "/srv"; command = [] }) input begun idle
      (sends (text "session.create") (unfold str_eq in refl)) refl
      (unfold create_session start_session enter_session with_store str_eq new_manager in refl)
      (sends (text "session.send_input") (unfold str_eq in refl)) refl refl refl

-- The write of the second message to client 2 fails.
abbrev fails_once : ℕ → Conn → Bool
fails_once k c = not (k == 1 && c == 2)

abbrev two_clients : Hub ℕ
two_clients = record { clients = 1 ∷ 2 ∷ []; writes = []; closed = [] }

abbrev three : List ℕ
three = 5 ∷ 6 ∷ 7 ∷ []

broadcast_loop_lem_example :
    let r = broadcast_loop fails_once 0 three two_clients in
    (sent_to 2 r.writes
      ≡ sent_to 2 two_clients.writes
        ++ (if is_client 2 two_clients.clients
            then until_failure (λ i. fails_once i 2) 0 three
            else []))
    × (is_client 2 r.clients
        ≡ (is_client 2 two_clients.clients && all_fine (λ i. fails_once i 2) 0 three))
broadcast_loop_lem_example =
    broadcast_loop_lem fails_once 0 three two_clients 2 (unfold is_client in (refl, (refl, tt)))

broadcast_stops : sent_to 2 (broadcast_loop fails_once 0 three two_clients).writes ≡ 5 ∷ 6 ∷ []
unfolding broadcast_loop sent_to
broadcast_stops = refl

-- A session is created and given an input; the second answer cannot be written.
abbrev frame : GoString → ApiFrame
frame raw = record { raw = raw; fresh = text "n"; now = 4 }

abbrev session_frames : List ApiFrame
session_frames =
    frame (text "session.create")
    ∷ frame (text "session.send_input")
    ∷ frame (text "session.list")
    ∷ []

read_loop_lem_example :
    map (λ r. r.id) (read_loop plain_io services (λ k. k == 0) 0 session_frames idle).1
    ≡ until_failure (λ k. k == 0) 0 (dues plain_io session_frames)
read_loop_lem_example = read_loop_lem plain_io services (λ k. k == 0) 0 session_frames idle
