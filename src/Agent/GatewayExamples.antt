-- ===== src/Agent/GatewayExamples.antt =====
-- The relay client and the handler of relayed messages at concrete inputs.
use pocketclaude.Base.{
  ℕ, ◌≤◌, GoString, text, Option, some, none, List, [], ◌∷◌, ◌++◌, ◌≡◌, ◌⊎◌, refl, ap, sym, Bool,
  if◌then◌else◌, true, false, arith,
}
use mathlib.Core.Option.{some-injective}
use pocketclaude.Agent.Examples.{clear, fresh}
use pocketclaude.Agent.Api.Protocol.{JsonRpcResponse, new_response, sessions}
use pocketclaude.Agent.ApiExamples.{plain_io, services, idle}
use pocketclaude.Agent.RelayMessages.{string, Gateway}
use pocketclaude.Agent.RelayMessages.Stream.{Arrival as Relayed, handle_all}
use pocketclaude.Agent.RelayMessages.Stream.Channel.{written, handle_all-sealed}
use pocketclaude.Base.{length, ◌%◌, ◌+◌}
use pocketclaude.Agent.Cipher.{uint64_mod}
use pocketclaude.Agent.RelayClient.{
  RelayClient, device, is_closed, Envelope, Packet, new_relay_client, register_msg, returned,
  registering, dialed, dialing, leaving, checking, looping, Place,
}
use pocketclaude.Agent.RelayClient.Steps.{
  System, Step, connect, call, start, go, hold, post, registered, leave, check, close_locked, begin,
  dials, keeps, registers, stops, leaves, checks, close_begins, Reachable, here, moved, first,
}
use pocketclaude.Agent.RelayClient.Steps.Closing.{Run, stay, step, cost, connect_returns}
use pocketclaude.Agent.RelayClient.Steps.Returning.{HasClose, returned-closed}
use pocketclaude.Agent.RelayClient.Registration.{
  of_envelope, NoSendJson, IsSent, agent_not_registered,
}
use pocketclaude.Agent.Cipher.{encrypt}
use pocketclaude.Agent.RelayMessages.{RelayMessage}
use pocketclaude.Agent.RelayClient.{Packet, envelope, any_json, close_message}
use pocketclaude.Agent.RelayClient.Steps.Writes.{All-Holds}
use pocketclaude.Relay.Protocol.{JsonRpcRequest}
use pocketclaude.Relay.Net.{Env, World}
use pocketclaude.Relay.Handler.{Arrival, serve_http}

abbrev gateway : Gateway GoString ℕ
gateway = record { agent = idle; e2e_cipher = some fresh; sent = [] }

abbrev no_sessions : JsonRpcResponse ℕ
no_sessions = new_response (some (text "1")) (sessions [])

abbrev coded : JsonRpcResponse ℕ → Option GoString
coded resp = some (text "{}")

abbrev list_request : RelayMessage
list_request = record {
  method = text "message.relay";
  params = some (some (string (encrypt clear fresh (text "session.list")).0));
}

-- A message under a key that the agent does not have, and a request of the paired client twice.
abbrev messages : List Relayed
messages =
    record {
      fresh = [];
      now = 3;
      message = record { method = text "message.relay"; params = some (some (string (text "x"))) };
    }
    ∷ record { fresh = []; now = 4; message = list_request }
    ∷ record { fresh = []; now = 5; message = list_request }
    ∷ []

handle_all-sealed_example :
    let g = handle_all clear plain_io services coded (text "phone") messages gateway in
    (plaintexts : List GoString) × (r : ℕ) × (g.sent
      ≡ [] ++ written clear (text "phone") fresh.key 0 plaintexts)
    × (g.e2e_cipher
        ≡ some (record {
          key = fresh.key;
          send_nonce = (0 + length plaintexts) % uint64_mod;
          recv_nonce = r;
        }))
handle_all-sealed_example =
    handle_all-sealed clear plain_io services coded (text "phone") messages fresh gateway refl
      (omega arith)

-- A coding in which a message without an identifier is its method, and no other is read.
unfoldable marshal_envelope : Option GoString → GoString → GoString
marshal_envelope none method = 1 ∷ method
marshal_envelope (some i) method = []

unfoldable unmarshal_method : GoString → Option JsonRpcRequest
unmarshal_method [] = none
unmarshal_method (b ∷ method) =
    some (record { jsonrpc = text "2.0"; method = method; params = []; id = none })

abbrev relay : Env
relay = record {
  unmarshal_request = unmarshal_method;
  unmarshal_register = λ b. none;
  unmarshal_send = λ b. none;
  marshal = λ p. none;
  format_close_message = λ code reason. reason;
  delivers = λ k. true;
  unix_now = λ n. 1700000000;
}

abbrev marshal : Envelope ℕ → GoString
marshal m = marshal_envelope m.id m.method

refuses :
    (o : Option GoString) (method i : GoString)
    → o ≡ some i
    → unmarshal_method (marshal_envelope o method) ≡ none
unfolding marshal_envelope unmarshal_method
refuses none method i e = cc
refuses (some j) method i e = refl

names :
    (o : Option GoString) (method : GoString) (req : JsonRpcRequest)
    → unmarshal_method (marshal_envelope o method) ≡ some req
    → req.method ≡ method
unfolding marshal_envelope unmarshal_method
names none method req e = ap (λ (r : JsonRpcRequest). r.method) (sym (some-injective _ _ e))
names (some j) method req e = cc

abbrev client : RelayClient
client = new_relay_client (text "wss://relay") (text "pc")

-- A state with one call of Close past the lock, or none.
unfoldable state : Bool → Place → Option ℕ → ℕ → List (ℕ × Packet ℕ) → Bool → ℕ → System ℕ ℕ
state closed place conn next_conn writes beating told = record {
  client = record {
    url = text "wss://relay";
    device_id = text "pc";
    public_key = [];
    conn = conn;
    done = false;
    closed = closed;
    on_message = false;
    on_connect = false;
    on_disconnect = false;
  };
  place = place;
  next_conn = next_conn;
  shut = [];
  writes = writes;
  calls = [];
  beating = beating;
  told = told;
  entered = if closed then 1 else 0;
  chosen = 0;
  panicked = false;
}

abbrev join : List (ℕ × Packet ℕ)
join = (0, register_msg client) ∷ []

begins : Reachable client (state false dialing none 0 [] false 0)
unfolding start state go new_relay_client
begins = moved here (begin refl refl)

-- Close comes while Connect is in Dial.
closes : Reachable client (state true dialing none 0 [] false 0)
unfolding state close_locked
closes = moved begins close_begins

module _ (closed : Bool) where
  dialled :
      Step connect
        (state closed dialing none 0 [] false 0)
        (state closed (dialed 0) none 1 [] false 0)
  unfolding state go
  dialled = dials refl

  kept :
      Step connect
        (state closed (dialed 0) none 1 [] false 0)
        (state closed (registering 0) (some 0) 1 [] false 0)
  unfolding state go hold
  kept = keeps 0 refl

  joined :
      Step connect
        (state closed (registering 0) (some 0) 1 [] false 0)
        (state closed looping (some 0) 1 join true 0)
  unfolding state go post registered call new_relay_client register_msg
  joined = registers 0 refl

stopped :
    Step connect
      (state true looping (some 0) 1 join true 0)
      (state true (leaving none) (some 0) 1 join true 0)
unfolding state go
stopped = stops refl refl

left :
    Step connect
      (state true (leaving none) (some 0) 1 join true 0)
      (state true (checking none) none 1 join false 1)
unfolding state go leave hold
left = leaves none refl

-- Connect returns, and the connection that Dial made is not shut.
ended :
    Step connect
      (state true (checking none) none 1 join false 1)
      (state true returned none 1 join false 1)
unfolding state go check is_closed
ended = checks none refl

to_the_end : Run 6 (state true dialing none 0 [] false 0) (state true returned none 1 join false 1)
unfolding cost
to_the_end =
    step (dialled true)
      (step (kept true) (step (joined true) (step stopped (step left (step ended stay)))))

connect_returns_example :
    let end = state true returned none 1 join false 1 in
    (6 ≤ 6) × ((end.place ≡ returned) ⊎ ((u : System ℕ ℕ) × Step connect end u))
connect_returns_example = connect_returns closes (unfold state in refl) to_the_end

at_the_end : Reachable client (state true returned none 1 join false 1)
at_the_end =
    moved
      (moved (moved (moved (moved (moved closes (dialled true)) (kept true)) (joined true)) stopped)
        left)
      ended

returned-closed_example : HasClose (state true returned none 1 join false 1) at_the_end
returned-closed_example =
    returned-closed {c = client} (unfold new_relay_client in refl) (unfold new_relay_client in refl)
      at_the_end (unfold state in refl)

-- A client that has registered, and its registration as it reaches the relay.
abbrev open_client : System ℕ ℕ
open_client = state false looping (some 0) 1 join true 0

open_client-Reachable : Reachable client open_client
open_client-Reachable = moved (moved (moved begins (dialled false)) (kept false)) (joined false)

abbrev registration : Arrival
registration = record { msg_type = 1; bytes = []; at = 7 }

registration-IsSent :
    IsSent relay 3 marshal
      (λ v. [])
      (λ m i e. refuses m.id m.method i e)
      (λ m req e. names m.id m.method req e)
      open_client
      0
      registration
unfolding state new_relay_client register_msg marshal_envelope
registration-IsSent =
    of_envelope
      (record {
        id = some (text "register");
        method = text "device.register";
        params = device (text "pc") (text "agent") [];
      })
      refl first refl

-- Not a packet of SendJSON.
unfoldable IsOwn : Packet ℕ → Type 0
IsOwn (envelope m) = Unit
IsOwn close_message = Unit
IsOwn (any_json v) = ⊥

only_registered :
    NoSendJson relay 3 marshal
      (λ v. [])
      (λ m i e. refuses m.id m.method i e)
      (λ m req e. names m.id m.method req e)
      open_client
      0
unfolding state new_relay_client register_msg IsOwn
only_registered v h = All-Holds (λ (x : ℕ × Packet ℕ). IsOwn x.1) (tt, tt) h

abbrev quiet : World
quiet = record { registry = []; writes = []; closed = [] }

agent_not_registered_example :
    (serve_http relay 3 quiet (registration ∷ [])).registry ≡ quiet.registry
agent_not_registered_example =
    agent_not_registered relay 3 marshal (λ v. []) (λ m i e. refuses m.id m.method i e)
      (λ m req e. names m.id m.method req e) 0 (registration ∷ []) quiet open_client-Reachable
      only_registered (registration-IsSent, tt)
