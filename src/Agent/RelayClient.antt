-- ===== src/Agent/RelayClient.antt =====
-- agent/internal/connection/relay.go. Connections are numbered in the order in which Dial returned
-- them; the sockets, the clock and the handlers that the client is given are outside.
pub mod Steps
pub mod Registration
use pocketclaude.Base.{
  ℕ, GoString, text, Bool, true, false, Option, none, some, List, [], ◌∷◌, ◌++◌, if◌then◌else◌,
}

-- The fields; of a handler, whether it is set. `done` says whether the channel is closed.
pub record RelayClient : Type 0 where
  pub url : GoString
  pub device_id : GoString
  pub public_key : GoString
  pub conn : Option ℕ
  pub done : Bool
  pub closed : Bool
  pub on_message : Bool
  pub on_connect : Bool
  pub on_disconnect : Bool

unfoldable pub new_relay_client : GoString → GoString → RelayClient
new_relay_client url device_id = record {
  url = url;
  device_id = device_id;
  public_key = [];
  conn = none;
  done = false;
  closed = false;
  on_message = false;
  on_connect = false;
  on_disconnect = false;
}

unfoldable pub set_message_handler : RelayClient → RelayClient
set_message_handler c = record c { on_message = true }

unfoldable pub set_on_connect : RelayClient → RelayClient
set_on_connect c = record c { on_connect = true }

unfoldable pub set_on_disconnect : RelayClient → RelayClient
set_on_disconnect c = record c { on_disconnect = true }

unfoldable pub set_public_key : RelayClient → GoString → RelayClient
set_public_key c key = record c { public_key = key }

unfoldable pub is_closed : RelayClient → Bool
is_closed c = c.closed

unfoldable pub is_connected : RelayClient → Bool
is_connected c = elim c.conn [ none ↦ false | some k ↦ true ]

-- What goes to the relay: `V` is the parameters of a call of SendJSONRPC, or a message of SendJSON.
pub data Params (V : Type 0) : Type 0 where
  device : GoString → GoString → GoString → Params V
  target : GoString → GoString → GoString → Params V
  given : V → Params V
  no_params : Params V

pub record Envelope (V : Type 0) : Type 0 where
  pub id : Option GoString
  pub method : GoString
  pub params : Params V

pub data Packet (V : Type 0) : Type 0 where
  envelope : Envelope V → Packet V
  any_json : V → Packet V
  close_message : Packet V

module _ {V : Type 0} where
  unfoldable pub register_msg : RelayClient → Packet V
  register_msg c = envelope (record {
    id = some (text "register");
    method = text "device.register";
    params = device c.device_id (text "agent") c.public_key;
  })

  -- The write that a call makes on the connection; none is ErrNotConnected. Otherwise the call
  -- returns what the write does.
  unfoldable pub send_json : RelayClient → Packet V → Option (ℕ × Packet V)
  send_json c msg = elim c.conn [ none ↦ none | some k ↦ some (k, msg) ]

  unfoldable pub send : RelayClient → GoString → GoString → GoString → Option (ℕ × Packet V)
  unfolding send_json
  send c target_id payload nonce = send_json c (
      envelope (record {
        id = none;
        method = text "message.send";
        params = target target_id payload nonce;
      }))

  -- `unix_nano` is the clock in nanoseconds, in decimal.
  unfoldable pub send_json_rpc : RelayClient → GoString → GoString → V → Option (ℕ × Packet V)
  unfolding send_json
  send_json_rpc c unix_nano method params =
      send_json c
        (envelope (record { id = some unix_nano; method = method; params = given params }))

  -- What the heartbeat sends at a tick of its clock; `unix` is the clock in seconds, in decimal.
  unfoldable pub beat : RelayClient → GoString → Option (ℕ × Packet V)
  unfolding send_json
  beat c unix = send_json c (
      envelope (record {
        id = some (text "hb-" ++ unix);
        method = text "presence.heartbeat";
        params = no_params;
      }))

-- Where the goroutine that called Connect is: at the test of `closed`; in Dial; before `c.conn` is
-- set; before the registration; at the test in readLoop; before it reads `c.conn`; in ReadMessage; after readLoop;
-- after connectOnce; at the select; returned. An error is none where it is nil.
pub data Place : Type 0 where
  starting dialing looping fetching waiting returned : Place
  dialed registering reading : ℕ → Place
  leaving checking : Option GoString → Place

pub data Call (M : Type 0) : Type 0 where
  connected : Call M
  message : M → Call M
  disconnected : GoString → Call M
