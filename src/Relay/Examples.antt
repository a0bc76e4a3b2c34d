-- ===== src/Relay/Examples.antt =====
-- The relay at concrete inputs.
use pocketclaude.Base.{
  GoString, text, str_eq, ◌≡◌, ◌≢◌, refl, true, false, some, none, [], ◌∷◌, ◌++◌, arith,
  if◌then◌else◌, ◌==◌, inl,
}
use pocketclaude.Base.GoMap.{lookup, Unique}
use pocketclaude.Relay.Protocol.{
  JsonRpcRequest, RegisterParams, method_device_register, method_message_send, json_rpc_version,
}
use pocketclaude.Relay.Registry.{DeviceInfo}
use pocketclaude.Relay.Registry.Laws.{unless_owned}
use pocketclaude.Relay.Registry.Invariant.{IsWellFormed}
use pocketclaude.Relay.Net.{Env, World, raw}
use pocketclaude.Relay.Router.{
  Router, new, target_id, pad_device_id, payload_of, handle_text, handle_binary, handle_register,
  handle_message_send,
}
use pocketclaude.Relay.Router.Delivery.{FitsFrame, binary_delivery}
use pocketclaude.Relay.Router.Replies.{request_id, handle_text-Answers, Answers}
use pocketclaude.Relay.Router.Sending.{Sent, message_send, OnlyRefused, unregistered_contained}
use pocketclaude.Relay.Router.Registration.{
  Accepted, device_of, registration, registration_announced, reconnection,
}
use pocketclaude.Relay.Handler.{Arrival, handle_frame, cleanup}
use pocketclaude.Relay.Handler.Cleanup.{cleanup_lem}
use pocketclaude.Relay.System.{
  boot, System, here, next, accept, receive, settle, IsSafe, Reach-IsSafe,
}

abbrev request : GoString → GoString → JsonRpcRequest
request method params = record {
  jsonrpc = json_rpc_version;
  method = method;
  params = params;
  id = some 5;
}

-- A network that delivers everything, and a decoder that knows one text.
abbrev pub calm : Env
calm = record {
  unmarshal_request = λ b.
      if str_eq b (text "join") then some (request method_device_register (text "phone")) else none;
  unmarshal_register =
      λ b. some (record { device_id = b; device_type = text "client"; public_key = text "k" });
  unmarshal_send =
      λ b. some (record { target_id = b; encrypted_payload = text "x"; nonce = text "n" });
  marshal = λ _. none;
  format_close_message = λ _ reason. reason;
  delivers = λ _. true;
  unix_now = λ n. 1700000000;
}

abbrev laptop : DeviceInfo
laptop = record {
  device_id = text "laptop";
  device_type = text "agent";
  public_key = text "k";
  conn = 1;
  registered = 0;
  last_seen = 0;
}

abbrev with_laptop : World
with_laptop = record { registry = (text "laptop", laptop) ∷ []; writes = []; closed = [] }

abbrev joined : Router
joined = record { device_id = text "phone"; registered = true }

abbrev join_params : GoString → RegisterParams
join_params id = record { device_id = id; device_type = text "client"; public_key = text "k" }

laptop-IsWellFormed : IsWellFormed with_laptop.registry
laptop-IsWellFormed = (record { keyed = refl; named = λ e. cc; typed = inl refl }, tt)

laptop-Unique : Unique with_laptop.registry
unfolding lookup
laptop-Unique = (refl, tt)

laptop_online : lookup (text "laptop") with_laptop.registry ≡ some laptop
unfolding lookup str_eq
laptop_online = refl

phone_offline : lookup (text "phone") with_laptop.registry ≡ none
unfolding lookup str_eq
phone_offline = refl

join-Accepted :
    (id : GoString) → id ≢ [] → Accepted calm (request method_device_register id) (join_params id)
unfolding str_eq
join-Accepted id ne = (refl, ne, refl)

abbrev waiting : System
waiting = record boot { routers = λ d. if 3 == d then some new else none }

abbrev join : Arrival
join = record { msg_type = 1; bytes = text "join"; at = 9 }

Reach-IsSafe_example :
    IsSafe calm (settle calm waiting.routers 3 (handle_frame calm 3 new waiting.world join))
Reach-IsSafe_example =
    Reach-IsSafe calm (next (next here (accept boot 3 refl)) (receive waiting 3 new join refl))

handle_text-Answers_example :
    Answers with_laptop 3
      (request_id calm (text "join"))
      (handle_text calm 9 new with_laptop 3 (text "join"))
handle_text-Answers_example = handle_text-Answers calm 9 new with_laptop 3 (text "join")

unregistered_contained_example :
    OnlyRefused with_laptop 3 (handle_text calm 9 new with_laptop 3 (text "garbage"))
unregistered_contained_example =
    unregistered_contained calm new with_laptop 3 refl 9 (text "garbage") still_out
  where
    still_out : (handle_text calm 9 new with_laptop 3 (text "garbage")).router.registered ≡ false
    still_out = unfold handle_text str_eq in refl

phone-Accepted :
    Accepted calm (request method_device_register (text "phone")) (join_params (text "phone"))
phone-Accepted = join-Accepted (text "phone") (λ e. cc)

registration_example :
    let o =
      handle_register calm 9 new with_laptop 3 (request method_device_register (text "phone")) in
    (o.router ≡ joined)
    × ((j : GoString)
        → lookup j o.world.registry ≡ (
            if str_eq (text "phone") j
            then some (device_of (join_params (text "phone")) 3 9)
            else lookup j with_laptop.registry))
    × (o.keep_open ≡ true)
registration_example =
    registration calm 9 new with_laptop 3 (request method_device_register (text "phone"))
      (join_params (text "phone")) phone-Accepted

registration_announced_example :
    (handle_register calm 9 new with_laptop 3
      (request method_device_register (text "phone"))).world.closed
    ≡ []
registration_announced_example =
    (registration_announced calm 9 new with_laptop 3 (request method_device_register (text "phone"))
      (join_params (text "phone")) phone-Accepted laptop-IsWellFormed phone_offline refl).1

reconnection_example :
    (handle_register calm 9 new with_laptop 3
      (request method_device_register (text "laptop"))).world.closed
    ≡ 1 ∷ []
reconnection_example =
    (reconnection calm 9 new with_laptop 3 (request method_device_register (text "laptop"))
      (join_params (text "laptop")) laptop (join-Accepted (text "laptop") (λ e. cc))
      laptop-IsWellFormed laptop_online (omega arith) refl).1

message_send_example :
    Sent calm joined with_laptop 3
      (request method_message_send (text "laptop"))
      (record { target_id = text "laptop"; encrypted_payload = text "x"; nonce = text "n" })
      laptop
      (handle_message_send calm joined with_laptop 3 (request method_message_send (text "laptop")))
message_send_example =
    message_send calm joined with_laptop 3 (request method_message_send (text "laptop"))
      (record { target_id = text "laptop"; encrypted_payload = text "x"; nonce = text "n" }) laptop
      refl refl (λ e. cc) laptop_online

laptop-FitsFrame : FitsFrame (text "laptop")
laptop-FitsFrame = ((λ e. cc), omega arith, omega arith)

phone-FitsFrame : FitsFrame (text "phone")
phone-FitsFrame = ((λ e. cc), omega arith, omega arith)

binary_delivery_example :
    (frame : GoString) × ((handle_binary calm joined with_laptop
        (pad_device_id (text "laptop") ++ text "secret")).world.writes
      ≡ (1, raw 1 frame) ∷ [])
    × (target_id frame ≡ text "phone")
    × (payload_of frame ≡ some (text "secret"))
binary_delivery_example =
    binary_delivery calm joined with_laptop laptop (text "laptop") (text "secret") refl
      phone-FitsFrame laptop-FitsFrame (λ e. cc) laptop_online

abbrev uuid : GoString
uuid = text "123e4567-e89b-12d3-a456-426614174000"

abbrev with_uuid : World
with_uuid = record {
  registry = (uuid, record laptop { device_id = uuid }) ∷ [];
  writes = [];
  closed = [];
}

cleanup_lem_example :
    ((cleanup calm 1 (record { device_id = text "laptop"; registered = true }) with_laptop).closed
      ≡ 1 ∷ [])
    × ((j : GoString)
        → lookup j
            (cleanup calm 1
              (record { device_id = text "laptop"; registered = true })
              with_laptop).registry
          ≡ (if str_eq (text "laptop") j
              then unless_owned 1 (lookup j with_laptop.registry)
              else lookup j with_laptop.registry))
cleanup_lem_example =
    cleanup_lem calm 1 (record { device_id = text "laptop"; registered = true }) with_laptop
      (λ e. cc)
