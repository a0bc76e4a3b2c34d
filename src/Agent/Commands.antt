-- ===== src/Agent/Commands.antt =====
-- agent/cmd/main.go: the commands init, pair and start, without what they print.
pub mod Pairings
use pocketclaude.Base.{
  ℕ, GoString, text, str_eq, Bool, true, false, Option, none, some, [], ◌++◌, if◌then◌else◌,
}
use pocketclaude.Agent.Cipher.{Crypto, E2ECipher, new_e2e_cipher}
use pocketclaude.Agent.Keys.{
  KeyPair, Config, ConfigIo, Keygen, config_path, generate_key_pair, default_config_dir,
  save_config, load_config, load_key_pair, save_paired_client,
}
use pocketclaude.Agent.RelayClient.{
  RelayClient, new_relay_client, set_message_handler, set_on_connect, set_on_disconnect,
  set_public_key,
}
use pocketclaude.Agent.SessionStore.{StoreIo, new_session_store}
use pocketclaude.Agent.Terminals.{Host, Manager, new_manager, restore_sessions}
use pocketclaude.Agent.Pairing.{
  PairIo, PairingResult, PairEvent, run_pairing_flow, is_paired, parse_client_pub_key,
}

-- How a command ends: an error, or not; `pair` may also find that it has nothing to do.
pub data Status : Type 0 where
  failed finished already_paired : Status

-- What the daemon starts with.
pub record Setup : Type 0 where
  pub config : Config
  pub key_pair : KeyPair
  pub e2e_cipher : Option E2ECipher

module _ {D : Type 0} (c : Crypto) (io : ConfigIo D) (net : PairIo) where
  -- `exists` is os.Stat, and `device_id` the new UUID. A path that cannot be determined is the empty one.
  unfoldable pub init_cmd :
      (D → GoString → Bool) → Keygen → GoString → GoString → ℕ → D → D × Status
  init_cmd exists g device_id relay_url api_port disk =
      if exists disk (elim (config_path io) [ none ↦ [] | some path ↦ path ])
      then (disk, failed)
      else elim (generate_key_pair g) [
        | none ↦ (disk, failed)
        | some kp ↦
            (let saved = save_config io disk kp device_id relay_url api_port in
              if saved.1 then (saved.0, finished) else (saved.0, failed))
      ]

  -- The end of pairCmd: the result is saved.
  unfoldable pub keep_pairing : D → PairingResult → D × Status
  keep_pairing disk result =
      let saved = save_paired_client io disk result.client_id (io.encode result.client_pub_key) in
      if saved.1 then (saved.0, finished) else (saved.0, failed)

  unfoldable pub pair_cmd : PairEvent → D → D × Status
  unfolding keep_pairing
  pair_cmd first disk = elim (load_config io disk) [
    | none ↦ (disk, failed)
    | some cfg ↦ elim (load_key_pair io cfg) [
      | none ↦ (disk, failed)
      | some kp ↦
          if is_paired c io net disk
          then (disk, already_paired)
          else elim (run_pairing_flow c io net kp cfg first) [
            | none ↦ (disk, failed)
            | some result ↦ keep_pairing disk result
          ]
    ]
  ]

  -- The cipher of startCmd; an error is only logged.
  unfoldable pub start_cipher : Config → KeyPair → Option E2ECipher
  start_cipher cfg kp =
      if str_eq cfg.paired_client_pub_key []
      then none
      else elim (parse_client_pub_key c io net cfg.paired_client_pub_key) [
        | none ↦ none
        | some key ↦ new_e2e_cipher c kp.x25519_private_key key
      ]

  unfoldable pub start_cmd : D → Option Setup
  unfolding start_cipher
  start_cmd disk = elim (load_config io disk) [
    | none ↦ none
    | some cfg ↦ elim (load_key_pair io cfg) [
      | none ↦ none
      | some kp ↦ some (record { config = cfg; key_pair = kp; e2e_cipher = start_cipher cfg kp })
    ]
  ]

  -- The terminals of startCmd: a store if the configuration directory is known. An error of
  -- RestoreSessions is only logged.
  unfoldable pub start_terminals : StoreIo D → Host → ℕ → D → Manager D
  start_terminals store_io host now disk = elim (default_config_dir io) [
    | none ↦ new_manager host disk
    | some dir ↦
        if str_eq dir []
        then new_manager host disk
        else (restore_sessions store_io host now
            (record (new_manager host disk) { store = some new_session_store })).0
  ]

-- The relay client of startCmd.
unfoldable pub start_relay_client : Config → RelayClient
start_relay_client cfg = set_on_disconnect (
    set_on_connect (
      set_message_handler
        (set_public_key (new_relay_client cfg.relay_url cfg.device_id) cfg.ed25519_pub_key_b64)))

unfoldable pub pairing_status : Config → GoString
pairing_status cfg =
    if str_eq cfg.paired_client_id []
    then text "not paired - run 'pocketclaude-agent pair'"
    else text "paired with " ++ cfg.paired_client_id
