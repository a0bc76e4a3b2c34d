-- ===== src/Agent/KeyExamples.antt =====
-- Keys, the configuration, and pairing at concrete inputs.
use pocketclaude.Base.{
  ℕ, zero, suc, ◌<◌, ◌≤◌, ◌%◌, ◌^◌, GoString, text, str_eq, Option, some, none, [], ◌∷◌, ◌++◌, ◌≡◌,
  refl, sym, true, All, arith,
}
use mathlib.Core.Option.{some-injective}
use pocketclaude.Agent.Cipher.{new_e2e_cipher}
use pocketclaude.Agent.Examples.{clear}
use pocketclaude.Agent.Keys.{
  KeyPair, Config, ConfigIo, clamp, load_config, load_key_pair, write_config, save_paired_client,
  save_config_file,
}
use pocketclaude.Agent.Keys.Clamp.{little_endian, clamp_bounds}
use pocketclaude.Agent.Keys.Storage.{IsReliable}
use pocketclaude.Agent.Pairing.{
  PairIo, PairingResult, PairEvent, attempt, run_pairing_flow, pairing_data, get_tailscale_ip,
  await_pairing, handle_pair, pair_with, is_paired,
}
use pocketclaude.Agent.Commands.{keep_pairing, pair_cmd, start_cmd}
use pocketclaude.Agent.Commands.Pairings.{start_cmd-pair_cmd}

unfoldable pub ones : ℕ → GoString
ones zero = []
ones (suc n) = 255 ∷ ones n

ones-All : (n : ℕ) → All (λ b. b < 256) (ones n)
unfolding ones
ones-All zero = tt
ones-All (suc n) = (omega arith, ones-All n)

clamp_bounds_example :
    let x = little_endian (clamp (ones 32)) in (x % 8 ≡ 0) × (2 ^ 254 ≤ x) × (x < 2 ^ 255)
clamp_bounds_example = clamp_bounds (ones 32) (unfold ones in refl) (ones-All 32)

-- A configuration that has only a client, with an id of one byte.
abbrev pub client_config : GoString → GoString → Config
client_config id key = record {
  device_id = [];
  ed25519_priv_key_b64 = [];
  ed25519_pub_key_b64 = [];
  x25519_priv_key_b64 = [];
  x25519_pub_key_b64 = [];
  relay_url = [];
  api_port = 0;
  paired_client_pub_key = key;
  paired_client_id = id;
}

unfoldable pub marshal_client :
    (device ed_priv ed_pub x_priv x_pub relay : GoString) (port : ℕ) (key id : GoString)
    → Option GoString
marshal_client [] [] [] [] [] [] zero key (c ∷ []) = some (c ∷ key)
marshal_client device ed_priv ed_pub x_priv x_pub relay port key id = none

unfoldable pub unmarshal_client : GoString → Option Config
unmarshal_client [] = some (client_config [] [])
unmarshal_client (c ∷ key) = some (client_config (c ∷ []) key)

abbrev pub config_io : ConfigIo GoString
config_io = record {
  user_home_dir = some (text "/home");
  join = λ p q. p ++ q;
  mkdir_all = λ disk dir. (disk, true);
  write_file = λ disk path b. (b, true);
  read_file = λ disk path. some disk;
  marshal = λ cfg.
      marshal_client cfg.device_id cfg.ed25519_priv_key_b64 cfg.ed25519_pub_key_b64
        cfg.x25519_priv_key_b64 cfg.x25519_pub_key_b64 cfg.relay_url cfg.api_port
        cfg.paired_client_pub_key cfg.paired_client_id;
  unmarshal = unmarshal_client;
  encode = λ b. b;
  decode = λ b. some b;
}

client-coded :
    (device ed_priv ed_pub x_priv x_pub relay : GoString) (port : ℕ) (key id : GoString)
    (b : GoString)
    → marshal_client device ed_priv ed_pub x_priv x_pub relay port key id ≡ some b
    → unmarshal_client b
      ≡ some (record {
        device_id = device;
        ed25519_priv_key_b64 = ed_priv;
        ed25519_pub_key_b64 = ed_pub;
        x25519_priv_key_b64 = x_priv;
        x25519_pub_key_b64 = x_pub;
        relay_url = relay;
        api_port = port;
        paired_client_pub_key = key;
        paired_client_id = id;
      })
unfolding marshal_client unmarshal_client
client-coded [] [] [] [] [] [] zero key (c ∷ []) b e = rw (sym (some-injective _ _ e)) refl
client-coded [] [] [] [] [] [] zero key [] b e = cc
client-coded [] [] [] [] [] [] zero key (c ∷ d ∷ more) b e = cc
client-coded [] [] [] [] [] [] (suc n) key id b e = cc
client-coded [] [] [] [] [] (x ∷ l) port key id b e = cc
client-coded [] [] [] [] (x ∷ l) relay port key id b e = cc
client-coded [] [] [] (x ∷ l) x_pub relay port key id b e = cc
client-coded [] [] (x ∷ l) x_priv x_pub relay port key id b e = cc
client-coded [] (x ∷ l) ed_pub x_priv x_pub relay port key id b e = cc
client-coded (x ∷ l) ed_priv ed_pub x_priv x_pub relay port key id b e = cc

config_io-IsReliable : IsReliable config_io
config_io-IsReliable = record {
  written = λ disk path b _. refl;
  unmarshal-marshal = λ cfg b e. client-coded _ _ _ _ _ _ _ _ _ b e;
  decode-encode = λ b. refl;
}

-- A network on which a phone answers.
abbrev pub with_phone : PairIo
with_phone = record {
  udp = none;
  interfaces = none;
  ip_string = λ a b c d. [];
  free_port = some 1;
  marshal = λ p. some [];
  qr_code = λ qr_json. true;
  unmarshal = λ msg. some (record {
    client_id = text "p";
    x25519_pub_key = ones 32;
    ed25519_pub_key = [];
    device_name = [];
    signature = [];
  });
}

abbrev answer : PairEvent
answer = attempt (record { upgraded = true; message = some []; confirmed = true })

start_cmd-pair_cmd_example :
    (cfg : Config) × (kp : KeyPair) × (r : PairingResult) × (load_config config_io [] ≡ some cfg)
    × (load_key_pair config_io cfg ≡ some kp)
    × (run_pairing_flow clear config_io with_phone kp cfg answer ≡ some r)
    × (start_cmd clear config_io with_phone (pair_cmd clear config_io with_phone answer []).0
        ≡ some (record {
          config = record cfg {
            paired_client_id = r.client_id;
            paired_client_pub_key = r.client_pub_key;
          };
          key_pair = kp;
          e2e_cipher = some r.cipher;
        }))
start_cmd-pair_cmd_example =
    start_cmd-pair_cmd clear config_io with_phone answer [] config_io-IsReliable refl (
      unfold pair_cmd load_config load_key_pair is_paired run_pairing_flow pairing_data
        get_tailscale_ip await_pairing handle_pair pair_with new_e2e_cipher keep_pairing
        save_paired_client save_config_file write_config marshal_client unmarshal_client ones
        str_eq in
      refl)
