-- ===== src/Agent/Pairing.antt =====
-- agent/internal/crypto/pairing.go. Terminal output is left out; the network is the record PairIo.
use pocketclaude.Base.{
  ℕ, GoString, text, str_eq, Bool, false, not, ◌&&◌, Option, none, some, List, [], ◌∷◌,
  if◌then◌else◌, ◌==◌, leb, length,
}
use pocketclaude.Agent.Cipher.{Crypto, E2ECipher, new_e2e_cipher}
use pocketclaude.Agent.Keys.{KeyPair, Config, ConfigIo, to_array, load_config}

pub record PairingData : Type 0 where
  pub agent_id : GoString
  pub agent_ip : GoString
  pub x25519_pub_key : GoString
  pub ed25519_pub_key : GoString
  pub relay_url : GoString
  pub pairing_port : ℕ
  pub tailscale_ip : GoString
  pub api_port : ℕ

pub record PairingResponse : Type 0 where
  pub client_id : GoString
  pub x25519_pub_key : GoString
  pub ed25519_pub_key : GoString
  pub device_name : GoString
  pub signature : GoString

pub record PairingResult : Type 0 where
  pub client_id : GoString
  pub client_pub_key : GoString
  pub cipher : E2ECipher

-- An address of an interface: the four bytes of an IPNet of version 4, or something else.
pub data Addr : Type 0 where
  other_addr : Addr
  ipv4 : ℕ → ℕ → ℕ → ℕ → Addr

-- `udp` is the local address of the dialled connection; `interfaces` is what net.Interfaces gives, and
-- for each of them Addrs. `qr_code` is whether qrcode.New can hold the text.
pub record PairIo : Type 0 where
  pub udp : Option GoString
  pub interfaces : Option (List (Option (List Addr)))
  pub ip_string : ℕ → ℕ → ℕ → ℕ → GoString
  pub free_port : Option ℕ
  pub marshal : PairingData → Option GoString
  pub qr_code : GoString → Bool
  pub unmarshal : GoString → Option PairingResponse

abbrev pub get_local_ip : PairIo → GoString
get_local_ip net = elim net.udp [ none ↦ text "127.0.0.1" | some ip ↦ ip ]

-- The loop over the addresses of one interface; `none` goes on with the next.
unfoldable pub tailscale_addr : PairIo → List Addr → Option GoString
tailscale_addr net [] = none
tailscale_addr net (other_addr ∷ addrs) = tailscale_addr net addrs
tailscale_addr net (ipv4 a b c d ∷ addrs) =
    let rest = tailscale_addr net addrs in
    if a == 100 && leb 64 b && leb b 127 then some (net.ip_string a b c d) else rest

unfoldable pub tailscale_iface : PairIo → List (Option (List Addr)) → GoString
unfolding tailscale_addr
tailscale_iface net [] = []
tailscale_iface net (none ∷ ifaces) = tailscale_iface net ifaces
tailscale_iface net (some addrs ∷ ifaces) =
    let rest = tailscale_iface net ifaces in
    elim (tailscale_addr net addrs) [ none ↦ rest | some ip ↦ ip ]

unfoldable pub get_tailscale_ip : PairIo → GoString
unfolding tailscale_iface
get_tailscale_ip net = elim net.interfaces [ none ↦ [] | some ifaces ↦ tailscale_iface net ifaces ]

-- What happens to the pairing server.
pub record Attempt : Type 0 where
  pub upgraded : Bool
  pub message : Option GoString
  pub confirmed : Bool

pub data PairEvent : Type 0 where
  attempt : Attempt → PairEvent
  server_failed timed_out : PairEvent

module _ {D : Type 0} (c : Crypto) (io : ConfigIo D) (net : PairIo) where
  unfoldable pub pairing_data : KeyPair → Config → ℕ → PairingData
  unfolding get_tailscale_ip
  pairing_data kp cfg port = record {
    agent_id = cfg.device_id;
    agent_ip = get_local_ip net;
    x25519_pub_key = io.encode kp.x25519_public_key;
    ed25519_pub_key = io.encode kp.ed25519_public_key;
    relay_url = cfg.relay_url;
    pairing_port = port;
    tailscale_ip = get_tailscale_ip net;
    api_port = cfg.api_port;
  }

  abbrev pub generate_pairing_qr_string : KeyPair → Config → ℕ → Option GoString
  generate_pairing_qr_string kp cfg port = net.marshal (pairing_data kp cfg port)

  unfoldable pub parse_client_pub_key : GoString → Option GoString
  parse_client_pub_key b64 = elim (io.decode b64) [
    | none ↦ none
    | some bytes ↦ if not (length bytes == 32) then none else some (to_array 32 bytes)
  ]

  -- The handler below its parsing: the shared secret, and the confirmation.
  unfoldable pub pair_with : KeyPair → PairingResponse → Bool → Option PairingResult
  pair_with kp resp confirmed = elim (io.decode resp.x25519_pub_key) [
    | none ↦ none
    | some bytes ↦
        if not (length bytes == 32)
        then none
        else elim (new_e2e_cipher c kp.x25519_private_key (to_array 32 bytes)) [
          | none ↦ none
          | some cipher ↦
              if confirmed
              then some (record {
                client_id = resp.client_id;
                client_pub_key = to_array 32 bytes;
                cipher = cipher;
              })
              else none
        ]
  ]

  -- The handler of /pair; `none` is an error on errChan.
  unfoldable pub handle_pair : KeyPair → Attempt → Option PairingResult
  unfolding pair_with
  handle_pair kp a = if not a.upgraded then none else elim a.message [
    | none ↦ none
    | some msg ↦ elim (net.unmarshal msg) [
      | none ↦ none
      | some resp ↦ pair_with kp resp a.confirmed
    ]
  ]

  -- The `select`: the first event decides, a failed attempt as much as a good one.
  unfoldable pub await_pairing : KeyPair → PairEvent → Option PairingResult
  unfolding handle_pair
  await_pairing kp (attempt a) = handle_pair kp a
  await_pairing kp server_failed = none
  await_pairing kp timed_out = none

  unfoldable pub run_pairing_flow : KeyPair → Config → PairEvent → Option PairingResult
  unfolding await_pairing pairing_data
  run_pairing_flow kp cfg first = elim net.free_port [
    | none ↦ none
    | some port ↦ elim (net.marshal (pairing_data kp cfg port)) [
      | none ↦ none
      | some qr_json ↦ if net.qr_code qr_json then await_pairing kp first else none
    ]
  ]

  unfoldable pub is_paired : D → Bool
  is_paired disk = elim (load_config io disk) [
    | none ↦ false
    | some cfg ↦ not (str_eq cfg.paired_client_id []) && not (str_eq cfg.paired_client_pub_key [])
  ]
