-- ===== src/Agent/SessionStore.antt =====
-- agent/internal/pty/session_store.go. `D` is the state of the disk, as far as the file
-- sessions.json goes.
pub mod Persistence
use pocketclaude.Base.{
  ℕ, GoString, Bool, true, false, Option, none, some, List, [], ◌∷◌, if◌then◌else◌,
}
use pocketclaude.Base.GoMap.{GoMap, lookup, insert, delete, values}

pub record StoredSession : Type 0 where
  pub id : GoString
  pub command : GoString
  pub project_dir : GoString
  pub uses_tmux : Bool
  pub created_at : ℕ
  pub last_seen_at : ℕ

-- os.ReadFile of the store's path: os.IsNotExist, another error, or the bytes.
pub data FileRead : Type 0 where
  missing unreadable : FileRead
  bytes : GoString → FileRead

pub record StoreIo (D : Type 0) : Type 0 where
  pub marshal : List StoredSession → Option GoString
  pub unmarshal : GoString → Option (List StoredSession)
  pub read : D → FileRead
  pub mkdir_all : D → D × Bool
  pub write : D → GoString → D × Bool

pub record SessionStore : Type 0 where
  pub sessions : GoMap StoredSession

abbrev pub new_session_store : SessionStore
new_session_store = record { sessions = [] }

-- The store and the disk after an operation, and whether it returned no error.
pub record Stored (D : Type 0) : Type 0 where
  pub store : SessionStore
  pub disk : D
  pub fine : Bool

-- The loop that fills the map from the list.
unfoldable pub load_all : GoMap StoredSession → List StoredSession → GoMap StoredSession
load_all sessions [] = sessions
load_all sessions (ss ∷ list) = load_all (insert ss.id ss sessions) list

module _ {D : Type 0} (io : StoreIo D) where
  unfoldable pub load_bytes : SessionStore → GoString → SessionStore × Bool
  unfolding load_all
  load_bytes st [] = (st, true)
  load_bytes st (b ∷ rest) = elim (io.unmarshal (b ∷ rest)) [
    | none ↦ (st, false)
    | some list ↦ (record { sessions = load_all [] list }, true)
  ]

  unfoldable pub load : SessionStore → D → SessionStore × Bool
  unfolding load_bytes
  load st disk = elim (io.read disk) [
    | missing ↦ (st, true)
    | unreadable ↦ (st, false)
    | bytes found ↦ load_bytes st found
  ]

  unfoldable pub write_locked : SessionStore → D → Stored D
  write_locked st disk = elim (io.marshal (values st.sessions)) [
    | none ↦ record { store = st; disk = disk; fine = false }
    | some found ↦
        (let made = io.mkdir_all disk in
          if made.1
          then (let written = io.write made.0 found in
              record { store = st; disk = written.0; fine = written.1 })
          else record { store = st; disk = made.0; fine = false })
  ]

  abbrev pub save : SessionStore → D → Stored D
  save st disk = write_locked st disk

  unfoldable pub put : ℕ → StoredSession → SessionStore → D → Stored D
  unfolding write_locked
  put now ss st disk =
      write_locked
        (record { sessions = insert ss.id (record ss { last_seen_at = now }) st.sessions }) disk

  abbrev pub get : SessionStore → GoString → Option StoredSession
  get st id = lookup id st.sessions

  unfoldable pub delete_session : GoString → SessionStore → D → Stored D
  unfolding write_locked
  delete_session id st disk = write_locked (record { sessions = delete id st.sessions }) disk

  abbrev pub list_sessions : SessionStore → List StoredSession
  list_sessions st = values st.sessions
