-- ===== src/Agent/Terminals/Restoring.antt =====
-- The sessions of an agent that starts again.
use pocketclaude.Base.{
  ℕ, GoString, str_eq, str_eq_iff, ◌≡◌, refl, ◌∙◌, true, ◌&&◌, Option, none, some, [], ◌∷◌, arith,
  if◌then◌else◌,
}
use pocketclaude.Base.GoMap.{GoMap, lookup, values, lookup-insert}
use pocketclaude.Agent.SessionStore.{StoredSession, StoreIo, SessionStore, load}
use pocketclaude.Agent.SessionStore.Persistence.{IsKeyed, load-IsKeyed}
use pocketclaude.Agent.Terminals.{
  Session, Host, Manager, with_store, restored, restore_one, restore_all, restore_sessions,
}

-- What a restart makes of a stored session: it lives on if it ran in a tmux session that still exists.
unfoldable pub survivor : Host → StoredSession → Option Session
survivor host ss = if ss.uses_tmux && host.tmux_exists ss.id then some (restored ss) else none

abbrev pub or_else : Option Session → Option Session → Option Session
or_else none o = o
or_else (some s) o = some s

module _ {D : Type 0} (io : StoreIo D) (host : Host) where
  lookup-restore_one :
      (now : ℕ) (ss : StoredSession) (m : Manager D) (j : GoString)
      → lookup j (restore_one io host now ss m).sessions ≡ (
          if str_eq ss.id j
          then or_else (survivor host ss) (lookup j m.sessions)
          else lookup j m.sessions)
  unfolding restore_one survivor with_store
  lookup-restore_one now ss m j = ground (arith, lookup-insert ss.id j (restored ss) m.sessions)

  lookup-restore_all :
      (now : ℕ) (stored : GoMap StoredSession) (m : Manager D) (j : GoString)
      → IsKeyed stored
      → lookup j (restore_all io host now (values stored) m).sessions
        ≡ or_else
            (elim (lookup j stored) [ none ↦ none | some ss ↦ survivor host ss ])
            (lookup j m.sessions)
  unfolding restore_all lookup
  lookup-restore_all now [] m j h = refl
  lookup-restore_all now ((k, ss) ∷ stored) m j h =
      lookup-restore_all now stored (restore_one io host now ss m) j (h.0.1, h.1.1)
      ∙ ground
          (arith, lookup-restore_one now ss m j, str_eq_iff k j, str_eq_iff ss.id j, h.0.0, h.1.0)

  -- A manager with tmux loads its store, which has each session once, under its own id, without an
  -- error. It has afterwards, beside the sessions that it had, exactly the stored sessions that ran in
  -- tmux and whose tmux session still exists, these in the place of others with the same ids.
  pub lookup-restore_sessions :
      (now : ℕ) (m : Manager D) (st : SessionStore) (j : GoString)
      → m.use_tmux ≡ true
      → m.store ≡ some st
      → IsKeyed st.sessions
      → (load io st m.disk).1 ≡ true
      → lookup j (restore_sessions io host now m).0.sessions
        ≡ or_else
            (elim (lookup j (load io st m.disk).0.sessions) [
              | none ↦ none
              | some ss ↦ survivor host ss
            ])
            (lookup j m.sessions)
  unfolding restore_sessions
  lookup-restore_sessions now m st j tmux has keyed fine =
      rw (tmux, has, restore_sessions, fine)
        (lookup-restore_all now (load io st m.disk).0.sessions _ j
          (load-IsKeyed io st m.disk keyed))
