-- ===== src/Agent/Keys.antt =====
-- agent/internal/crypto/keys.go. `D` is the state of the disk. The operating system, encoding/json at
-- the type Config, and encoding/base64 are the record ConfigIo; the sources of keys are Keygen.
pub mod Clamp
pub mod Storage
use Prim.Native.Nat.{bit_and, bit_or}
use pocketclaude.Base.{
  ℕ, zero, suc, ◌-◌, GoString, text, Bool, false, Option, none, some, List, [], ◌∷◌, ◌++◌, length,
  take, replicate, if◌then◌else◌,
}

pub record KeyPair : Type 0 where
  pub ed25519_private_key : GoString
  pub ed25519_public_key : GoString
  pub x25519_private_key : GoString
  pub x25519_public_key : GoString

pub record Config : Type 0 where
  pub device_id : GoString
  pub ed25519_priv_key_b64 : GoString
  pub ed25519_pub_key_b64 : GoString
  pub x25519_priv_key_b64 : GoString
  pub x25519_pub_key_b64 : GoString
  pub relay_url : GoString
  pub api_port : ℕ
  pub paired_client_pub_key : GoString
  pub paired_client_id : GoString

pub record ConfigIo (D : Type 0) : Type 0 where
  pub user_home_dir : Option GoString
  pub join : GoString → GoString → GoString
  pub mkdir_all : D → GoString → D × Bool
  pub write_file : D → GoString → GoString → D × Bool
  pub read_file : D → GoString → Option GoString
  pub marshal : Config → Option GoString
  pub unmarshal : GoString → Option Config
  pub encode : GoString → GoString
  pub decode : GoString → Option GoString

-- `ed25519` is a public and a private key; `random` is the 32 bytes of rand.Read; `base` is
-- curve25519.X25519 at the base point; `sum256` is the digest of SHA-256 in hexadecimal.
pub record Keygen : Type 0 where
  pub ed25519 : Option (GoString × GoString)
  pub random : Option GoString
  pub base : GoString → Option GoString
  pub sum256 : GoString → GoString

-- `copy` into a new array of n bytes.
abbrev pub to_array : ℕ → GoString → GoString
to_array n b = take n b ++ replicate (n - length b) 0

-- `b[i] = f(b[i])`
unfoldable pub update : ℕ → (ℕ → ℕ) → GoString → GoString
update i f [] = []
update zero f (b ∷ bs) = f b ∷ bs
update (suc i) f (b ∷ bs) = b ∷ update i f bs

abbrev pub low_byte : ℕ → ℕ
low_byte b = bit_and b 248

abbrev pub high_byte : ℕ → ℕ
high_byte b = bit_or (bit_and b 127) 64

unfoldable pub clamp : GoString → GoString
unfolding update
clamp priv = update 31 high_byte (update 0 low_byte priv)

unfoldable pub generate_key_pair : Keygen → Option KeyPair
unfolding clamp
generate_key_pair g = elim g.ed25519 [
  | none ↦ none
  | some (ed_pub, ed_priv) ↦ elim g.random [
    | none ↦ none
    | some bytes ↦ elim (g.base (clamp bytes)) [
      | none ↦ none
      | some x_pub ↦ some (record {
        ed25519_private_key = ed_priv;
        ed25519_public_key = ed_pub;
        x25519_private_key = clamp bytes;
        x25519_public_key = to_array 32 x_pub;
      })
    ]
  ]
]

abbrev pub fingerprint : Keygen → KeyPair → GoString
fingerprint g kp = take 16 (g.sum256 kp.ed25519_public_key)

module _ {D : Type 0} (io : ConfigIo D) where
  abbrev pub default_config_dir : Option GoString
  default_config_dir = elim io.user_home_dir [
    | none ↦ none
    | some home ↦ some (io.join home (text ".pocketclaude"))
  ]

  abbrev pub config_file : GoString → GoString
  config_file dir = io.join dir (text "config.json")

  abbrev pub config_path : Option GoString
  config_path = elim default_config_dir [ none ↦ none | some dir ↦ some (config_file dir) ]

  abbrev pub new_config : KeyPair → GoString → GoString → ℕ → Config
  new_config kp device_id relay_url api_port = record {
    device_id = device_id;
    ed25519_priv_key_b64 = io.encode kp.ed25519_private_key;
    ed25519_pub_key_b64 = io.encode kp.ed25519_public_key;
    x25519_priv_key_b64 = io.encode kp.x25519_private_key;
    x25519_pub_key_b64 = io.encode kp.x25519_public_key;
    relay_url = relay_url;
    api_port = api_port;
    paired_client_pub_key = [];
    paired_client_id = [];
  }

  -- The marshalled configuration, written to the directory. The disk, and whether there was no error.
  unfoldable pub write_config : D → GoString → Config → D × Bool
  write_config disk dir cfg = elim (io.marshal cfg) [
    | none ↦ (disk, false)
    | some bytes ↦ io.write_file disk (config_file dir) bytes
  ]

  unfoldable pub save_config : D → KeyPair → GoString → GoString → ℕ → D × Bool
  unfolding write_config
  save_config disk kp device_id relay_url api_port = elim default_config_dir [
    | none ↦ (disk, false)
    | some dir ↦
        (let made = io.mkdir_all disk dir in
          if made.1
          then write_config made.0 dir (new_config kp device_id relay_url api_port)
          else (made.0, false))
  ]

  unfoldable pub load_config : D → Option Config
  load_config disk = elim config_path [
    | none ↦ none
    | some path ↦ elim (io.read_file disk path) [ none ↦ none | some bytes ↦ io.unmarshal bytes ]
  ]

  unfoldable pub load_key_pair : Config → Option KeyPair
  load_key_pair cfg = elim (io.decode cfg.ed25519_priv_key_b64) [
    | none ↦ none
    | some ed_priv ↦ elim (io.decode cfg.ed25519_pub_key_b64) [
      | none ↦ none
      | some ed_pub ↦ elim (io.decode cfg.x25519_priv_key_b64) [
        | none ↦ none
        | some x_priv ↦ elim (io.decode cfg.x25519_pub_key_b64) [
          | none ↦ none
          | some x_pub ↦ some (record {
            ed25519_private_key = ed_priv;
            ed25519_public_key = ed_pub;
            x25519_private_key = to_array 32 x_priv;
            x25519_public_key = to_array 32 x_pub;
          })
        ]
      ]
    ]
  ]

  unfoldable pub save_config_file : D → Config → D × Bool
  unfolding write_config
  save_config_file disk cfg = elim default_config_dir [
    | none ↦ (disk, false)
    | some dir ↦ write_config disk dir cfg
  ]

  unfoldable pub save_paired_client : D → GoString → GoString → D × Bool
  unfolding load_config save_config_file
  save_paired_client disk client_id client_pub_key_b64 = elim (load_config disk) [
    | none ↦ (disk, false)
    | some cfg ↦
        save_config_file disk
          (record cfg { paired_client_id = client_id; paired_client_pub_key = client_pub_key_b64 })
  ]
