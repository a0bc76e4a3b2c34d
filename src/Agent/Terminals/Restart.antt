-- ===== src/Agent/Terminals/Restart.antt =====
-- The agent stops and starts again.
use pocketclaude.Base.{
  ℕ, GoString, text, str_eq, str_eq_refl, ◌≡◌, refl, ◌∙◌, true, false, not, ◌&&◌, some, [],
  if◌then◌else◌,
}
use pocketclaude.Base.GoMap.{lookup}
use pocketclaude.Agent.SessionStore.{StoreIo, SessionStore, load, put, new_session_store}
use pocketclaude.Agent.SessionStore.Persistence.{IsKeyed, IsReliable, load-put}
use pocketclaude.Agent.Terminals.{
  Session, Host, Manager, new_manager, blank, with_store, stored_of, entered_at, enter_session,
  create_session, close_all, restore_sessions,
}
use pocketclaude.Agent.Terminals.Lifecycle.{create_session-some, started-fields}
use pocketclaude.Agent.Terminals.Restoring.{survivor, lookup-restore_sessions}

-- An agent that starts on the disk that it finds, with a new store.
abbrev pub started_again : {D : Type 0} → Host → D → Manager D
started_again host disk = record (new_manager host disk) { store = some new_session_store }

module _ {D : Type 0} (io : StoreIo D) (host : Host) where
  disk-create_session :
      (id : GoString) (now : ℕ) (project_dir command : GoString) (m : Manager D) (s : Session)
      (st : SessionStore)
      → (create_session io host id now project_dir command m).1 ≡ some s
      → m.store ≡ some st
      → (close_all io host (create_session io host id now project_dir command m).0).disk
        ≡ (put io (entered_at host now) (stored_of io host s now) st m.disk).disk
  unfolding close_all enter_session with_store
  disk-create_session id now project_dir command m s st e has =
      rw ((create_session-some io host id now project_dir command m s e).1, has) refl

  -- The coding and the disk are reliable, and the store has each session once, under its own id. A
  -- session was created in tmux, and the store could write it. The agent is shut down and started
  -- again, on a host with tmux where the tmux session still runs: the session is there again, under
  -- its id, with its command, its directory and the time it was stored with, and not closed.
  pub survives_restart :
      (sure : IsReliable io) (later_host : Host) (id : GoString) (now later : ℕ)
      (project_dir command : GoString) (m : Manager D) (s : Session) (st : SessionStore)
      → (create_session io host id now project_dir command m).1 ≡ some s
      → s.uses_tmux ≡ true
      → m.store ≡ some st
      → IsKeyed st.sessions
      → (put io (entered_at host now) (stored_of io host s now) st m.disk).fine ≡ true
      → not later_host.windows && later_host.has_tmux ≡ true
      → later_host.tmux_exists id ≡ true
      → let left =
          (close_all io host (create_session io host id now project_dir command m).0).disk in
        lookup id (restore_sessions io later_host later (started_again later_host left)).0.sessions
        ≡ some (record (blank id s.command project_dir (host.tick now)) { uses_tmux = true })
  unfolding new_manager survivor lookup
  survives_restart sure later_host id now later project_dir command m s st e tmux has keyed fine
        able lives =
      rw (disk-create_session id now project_dir command m s st e has) (
        lookup-restore_sessions io later_host later (started_again later_host left)
          new_session_store id able refl (tt, tt) again.0
        ∙ rw (known, tmux, own, lives, dir) refl)
    where
      left : D
      left = (put io (entered_at host now) (stored_of io host s now) st m.disk).disk

      again :
          let l = load io new_session_store left in
          (l.1 ≡ true)
          × (lookup id l.0.sessions ≡ (
              if str_eq s.id id
              then some (record (stored_of io host s now) { last_seen_at = entered_at host now })
              else lookup id st.sessions))
      again =
          load-put io sure (entered_at host now) (stored_of io host s now) st m.disk id keyed fine

      fields :
          (s.id ≡ id)
          × (s.command ≡ (if str_eq command [] then text "claude" else command))
          × (s.project_dir ≡ project_dir)
          × (s.closed ≡ false)
      fields =
          started-fields io host m.use_tmux _ s
            (create_session-some io host id now project_dir command m s e).0

      own : s.id ≡ id
      own = fields.0

      dir : s.project_dir ≡ project_dir
      dir = fields.2

      known :
          lookup id (load io new_session_store left).0.sessions
          ≡ some (record (stored_of io host s now) { last_seen_at = entered_at host now })
      known = again.1 ∙ rw (own, str_eq_refl id) refl
