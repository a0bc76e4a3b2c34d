-- ===== src/Agent/Examples.antt =====
-- The agent's parts at concrete inputs.
use pocketclaude.Base.{
  ℕ, GoString, text, str_eq, ◌≡◌, ◌≢◌, refl, true, some, none, List, [], ◌∷◌, ◌++◌, arith,
  if◌then◌else◌, has_prefix,
}
use pocketclaude.Agent.Cipher.{Crypto, E2ECipher, plain, nonce_of, encrypt, decrypt}
use pocketclaude.Agent.Cipher.Messages.{after, decrypt-encrypt, nonces_differ}
use pocketclaude.Agent.Files.{
  Os, resolve_path, any_prefix, WriteFileResult, ok, check_access, write_file,
}
use pocketclaude.Agent.Bytes.{put_uint64}
use pocketclaude.Agent.Files.{resolve_path, write_file}
use pocketclaude.Agent.Files.Access.{Under, write_confined}
use pocketclaude.Agent.Plugins.{Context, Plugin, new_registry, produced, register, fire}
use pocketclaude.Agent.Plugins.Subscriptions.{own_answers, fire-register}

-- A key exchange that everyone agrees on, and a cipher that seals nothing.
abbrev pub clear : Crypto
clear = record {
  x25519 = λ a b. some (text "secret");
  public_key = λ a. a;
  seal = λ key nonce plaintext. plaintext;
  open_sealed = λ key nonce ciphertext. some ciphertext;
  agree = λ a b. refl;
  open-seal = λ key nonce plaintext. refl;
}

abbrev pub fresh : E2ECipher
fresh = record { key = text "secret"; send_nonce = 0; recv_nonce = 0 }

decrypt-encrypt_example :
    decrypt clear fresh (encrypt clear fresh (text "hello")).0
    ≡ plain (text "hello") (record fresh { recv_nonce = 1 })
decrypt-encrypt_example = decrypt-encrypt clear fresh fresh (text "hello") refl (omega arith)

nonces_differ_example :
    ((encrypt clear fresh (text "a")).0
      ≡ put_uint64 0 ++ clear.seal fresh.key (nonce_of 0) (text "a"))
    × ((encrypt clear (encrypt clear fresh (text "hello")).1 (text "b")).0
        ≡ put_uint64 1 ++ clear.seal fresh.key (nonce_of 1) (text "b"))
    × (nonce_of 0 ≢ nonce_of 1)
unfolding after
nonces_differ_example =
    nonces_differ clear fresh [] (text "hello" ∷ []) (text "a") (text "b") refl (omega arith)
      (omega arith)

-- A disk that holds one file, under an absolute path.
abbrev Disk : Type 0
Disk = GoString × GoString

abbrev one_file : Os Disk ℕ
one_file = record {
  is_abs = λ _. true;
  clean = λ p. p;
  abs = λ p. some p;
  join = λ p q. p ++ text "/" ++ q;
  dir = λ p. p;
  read_dir = λ s p. none;
  read_file = λ s p. if str_eq s.0 p then some (s.1) else none;
  mkdir_all = λ s p. (s, true);
  write_file = λ s p c. ((p, c), true);
}

abbrev disk : Disk
disk = (text "/srv/app/a", text "old")

abbrev app : List GoString
app = text "/srv/app" ∷ []

abbrev notes : WriteFileResult
notes = record { path = text "/srv/app/b"; size = 3 }

writes_notes : (write_file one_file app disk (text "/srv/app/b") (text "new")).1 ≡ ok notes
unfolding write_file check_access resolve_path any_prefix has_prefix
writes_notes = refl

write_confined_example :
    ((a : GoString) × (some (text "/srv/app/b") ≡ some a) × Under one_file a app)
    × (text "/srv/app/b" ≡ resolve_path one_file (text "/srv/app/b"))
    × ((write_file one_file app disk (text "/srv/app/b") (text "new")).0
        ≡ (text "/srv/app/b", text "new"))
write_confined_example =
    write_confined one_file app disk (text "/srv/app/b") (text "new") notes (λ e. cc) writes_notes

abbrev on_create : GoString
on_create = text "session.created"

abbrev greeter : Plugin ℕ
greeter = record {
  info = record {
    id = text "greeter";
    name = [];
    version = [];
    description = [];
    author = [];
    hooks = on_create ∷ [];
  };
  on_load = true;
  on_hook = λ _. produced 7;
}

abbrev created : Context ℕ
created = record { hook = []; session_id = text "s"; context_data = 0 }

fire-register_example :
    fire (register new_registry greeter).0 on_create created
    ≡ fire new_registry on_create created ++ own_answers greeter on_create created
fire-register_example = fire-register new_registry greeter on_create created
