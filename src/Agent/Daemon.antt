-- ===== src/Agent/Daemon.antt =====
-- The life of the daemon that the command `start` of agent/cmd/main.go starts: main, the HTTP server of
-- the local API, and the handlers of frames and of relayed messages, which come in at any time.
pub mod Changes
pub mod Ending
pub mod Starting
use pocketclaude.Base.{
  ℕ, GoString, text, str_eq, ◌≡◌, Bool, true, false, Option, none, some, List, [], ◌++◌,
  if◌then◌else◌,
}
use pocketclaude.Base.GoMap.{lookup}
use pocketclaude.Agent.Cipher.{Crypto, E2ECipher, plain, failed, decrypt}
use pocketclaude.Agent.Api.Protocol.{JsonRpcRequest, JsonRpcResponse}
use pocketclaude.Agent.Api.{ApiIo, Services, Agent, handle_message}
use pocketclaude.Agent.RelayMessages.{RelayMessage, Gateway, to_bytes, handle_relay_message}
use pocketclaude.Agent.Tmux.{decimal, digits}
use pocketclaude.Agent.Terminals.{Session, Manager, Effect, close_all, new_manager}
use pocketclaude.Agent.Terminals.Releasing.{opened}

-- The address of the HTTP server.
unfoldable pub api_addr : ℕ → GoString
unfolding digits
api_addr port = text "0.0.0.0:" ++ decimal port

-- Where main is: it waits for a signal, it is before relayClient.Close, before server.Close, and before
-- the deferred CloseAll; or the process has ended.
pub data Place : Type 0 where
  waiting closing_relay closing_server returning : Place
  exited : ℕ → Place

unfoldable pub is_running : Place → Bool
is_running waiting = true
is_running closing_relay = true
is_running closing_server = true
is_running returning = true
is_running (exited code) = false

-- `serving` is whether the HTTP server listens.
pub record Daemon (D P : Type 0) : Type 0 where
  pub place : Place
  pub gateway : Gateway D P
  pub relay_closed : Bool
  pub serving : Bool

module _ {D Info : Type 0} (io : ApiIo) (sv : Services D Info) where
  -- What the host opens for a request, by the request: it is a session.create that can be read.
  unfoldable pub opened_by_request : Bool → GoString → JsonRpcRequest → List Effect
  opened_by_request use_tmux fresh req =
      if str_eq req.method (text "session.create")
      then elim (io.create_of req.params) [
        | none ↦ []
        | some p ↦
            opened sv.host use_tmux fresh (if str_eq p.command [] then text "claude" else p.command)
              p.project_dir
      ]
      else []

  unfoldable pub opened_by : Bool → GoString → GoString → List Effect
  unfolding opened_by_request
  opened_by use_tmux fresh raw = elim (io.unmarshal_request raw) [
    | none ↦ []
    | some req ↦
        if str_eq req.jsonrpc (text "2.0") then opened_by_request use_tmux fresh req else []
  ]

module _ (c : Crypto) where
  -- The request that a message carries, if it can be decrypted.
  unfoldable pub plaintext_of : Option E2ECipher → RelayMessage → Option GoString
  plaintext_of cipher msg =
      if str_eq msg.method (text "message.relay")
      then elim msg.params [
        | none ↦ none
        | some params ↦ elim params [
          | none ↦ none
          | some payload ↦ elim cipher [
            | none ↦ none
            | some e ↦ elim (to_bytes payload) [
              | none ↦ none
              | some bytes ↦ elim (decrypt c e bytes) [ failed err ↦ none | plain p e' ↦ some p ]
            ]
          ]
        ]
      ]
      else none

module _ {D P Info : Type 0} (c : Crypto) (io : ApiIo) (sv : Services D Info)
    (marshal : JsonRpcResponse Info → Option GoString) (paired_client_id : GoString) where
  abbrev pub terminals_of : Daemon D P → Manager D
  terminals_of d = d.gateway.agent.terminals

  unfoldable pub opened_by_message : GoString → RelayMessage → Daemon D P → List Effect
  opened_by_message fresh msg d = elim (plaintext_of c d.gateway.e2e_cipher msg) [
    | none ↦ []
    | some raw ↦ opened_by io sv (terminals_of d).use_tmux fresh raw
  ]

  -- A frame of the local API, and a message from the relay.
  unfoldable pub take_frame : GoString → ℕ → GoString → Daemon D P → Daemon D P
  take_frame fresh now raw d = record d {
    gateway = record d.gateway { agent = (handle_message io sv fresh now raw d.gateway.agent).0 };
  }

  unfoldable pub take_message : GoString → ℕ → RelayMessage → Daemon D P → Daemon D P
  take_message fresh now msg d = record d {
    gateway = handle_relay_message c io sv marshal paired_client_id fresh now msg d.gateway;
  }

  unfoldable pub close_terminals : Daemon D P → Daemon D P
  close_terminals d = record d {
    place = exited 0;
    gateway = record d.gateway {
      agent = record d.gateway.agent { terminals = close_all sv.store_io sv.host (terminals_of d) };
    };
  }

  -- Where the daemon has come to, and what the host has opened for the requests on the way. Each
  -- request has a new id for a session. `fails` is log.Fatalf, which runs no deferred call.
  pub data Reach (a : Agent D P) (cipher : Option E2ECipher)
      : Daemon D P → List Effect → Type 0 where
    begins :
        Reach a cipher
          (record {
            place = waiting;
            gateway = record { agent = a; e2e_cipher = cipher; sent = [] };
            relay_closed = false;
            serving = true;
          })
          []
    frames :
        {d : Daemon D P} {started : List Effect}
        → Reach a cipher d started
        → (fresh : GoString) (now : ℕ) (raw : GoString) → is_running d.place ≡ true
        → lookup fresh (terminals_of d).sessions ≡ none
        → Reach a cipher
            (take_frame fresh now raw d)
            (opened_by io sv (terminals_of d).use_tmux fresh raw ++ started)
    relays :
        {d : Daemon D P} {started : List Effect}
        → Reach a cipher d started
        → (fresh : GoString) (now : ℕ) (msg : RelayMessage) → is_running d.place ≡ true
        → lookup fresh (terminals_of d).sessions ≡ none
        → Reach a cipher (take_message fresh now msg d) (opened_by_message fresh msg d ++ started)
    fails :
        {d : Daemon D P} {started : List Effect}
        → Reach a cipher d started
        → is_running d.place ≡ true
        → d.serving ≡ true
        → Reach a cipher (record d { place = exited 1; serving = false }) started
    signals :
        {d : Daemon D P} {started : List Effect}
        → Reach a cipher d started
        → d.place ≡ waiting
        → Reach a cipher (record d { place = closing_relay }) started
    closes_relay :
        {d : Daemon D P} {started : List Effect}
        → Reach a cipher d started
        → d.place ≡ closing_relay
        → Reach a cipher (record d { place = closing_server; relay_closed = true }) started
    closes_server :
        {d : Daemon D P} {started : List Effect}
        → Reach a cipher d started
        → d.place ≡ closing_server
        → Reach a cipher (record d { place = returning; serving = false }) started
    closes_terminals :
        {d : Daemon D P} {started : List Effect}
        → Reach a cipher d started
        → d.place ≡ returning
        → Reach a cipher (close_terminals d) started
