-- ===== src/Agent/RelayMessages.antt =====
-- The handler of messages from the relay in agent/cmd/main.go (startCmd), and toBytes.
pub mod Delivery
pub mod Stream
use pocketclaude.Base.{
  ℕ, GoString, text, str_eq, Option, none, some, List, [], ◌∷◌, ◌++◌, if◌then◌else◌,
}
use pocketclaude.Agent.Cipher.{Crypto, E2ECipher, Decrypted, plain, failed, encrypt, decrypt}
use pocketclaude.Agent.Api.Protocol.{JsonRpcResponse}
use pocketclaude.Agent.Api.{ApiIo, Services, Agent, handle_message}

-- A value of an interface{}: a string, a []byte, a json.RawMessage, or another one with its json.Marshal.
pub data Value : Type 0 where
  string byte_slice raw_message : GoString → Value
  other : Option GoString → Value

-- The message as far as it is read: the method, empty where it is no string; the parameters, where they
-- are an object; and in them `encrypted_payload`, where it is there and not null.
pub record RelayMessage : Type 0 where
  pub method : GoString
  pub params : Option (Option Value)

unfoldable pub to_bytes : Value → Option GoString
to_bytes (string s) = some s
to_bytes (byte_slice b) = some b
to_bytes (raw_message b) = some b
to_bytes (other marshalled) = marshalled

-- The parameters of a message.send.
pub record Sent : Type 0 where
  pub target_id : GoString
  pub encrypted_payload : GoString

-- What the handler closes over, and the messages that it has given to the relay client.
pub record Gateway (D P : Type 0) : Type 0 where
  pub agent : Agent D P
  pub e2e_cipher : Option E2ECipher
  pub sent : List Sent

module _ {D P Info : Type 0} (c : Crypto) (io : ApiIo) (sv : Services D Info)
    (marshal : JsonRpcResponse Info → Option GoString) (paired_client_id : GoString) where
  -- From the response on; `e` is the cipher after the request was decrypted.
  unfoldable pub send_back :
      E2ECipher → Agent D P × Option (JsonRpcResponse Info) → Gateway D P → Gateway D P
  send_back e (a, none) g = record g { agent = a; e2e_cipher = some e }
  send_back e (a, some resp) g = elim (marshal resp) [
    | none ↦ record g { agent = a; e2e_cipher = some e }
    | some resp_json ↦
        (let (encrypted_resp, e') = encrypt c e resp_json in
          record {
            agent = a;
            e2e_cipher = some e';
            sent =
                g.sent
                ++ record { target_id = paired_client_id; encrypted_payload = encrypted_resp } ∷ [];
          })
  ]

  -- The part of `message.relay` with a cipher and a payload.
  unfoldable pub relay_request : GoString → ℕ → E2ECipher → Value → Gateway D P → Gateway D P
  unfolding send_back to_bytes
  relay_request fresh now e payload g = elim (to_bytes payload) [
    | none ↦ g
    | some payload_bytes ↦ elim (decrypt c e payload_bytes) [
      | failed err ↦ g
      | plain decrypted e' ↦ send_back e' (handle_message io sv fresh now decrypted g.agent) g
    ]
  ]

  -- The methods `device.registered` and `presence.heartbeat_ack`, and all others, are only logged.
  unfoldable pub handle_relay_message : GoString → ℕ → RelayMessage → Gateway D P → Gateway D P
  unfolding relay_request
  handle_relay_message fresh now msg g =
      if str_eq msg.method (text "message.relay")
      then elim msg.params [
        | none ↦ g
        | some params ↦ elim params [
          | none ↦ g
          | some payload ↦ elim g.e2e_cipher [
            | none ↦ g
            | some e ↦ relay_request fresh now e payload g
          ]
        ]
      ]
      else g
