-- ===== src/Agent/Terminals/Lifecycle.antt =====
-- The life of a session: creation, use and destruction.
use pocketclaude.Base.{
  ℕ, GoString, text, str_eq, str_eq_refl, ◌≡◌, refl, ap, ◌∙◌, Bool, true, false, Option, none, some,
  [], ◌++◌, arith, if◌then◌else◌, option_split, if_split, Option-cases, inl, inr,
}
use pocketclaude.Base.GoMap.{GoMap, lookup, delete, lookup-insert, lookup-delete}
use pocketclaude.Agent.SessionStore.{StoreIo, SessionStore, Stored, put, delete_session}
use pocketclaude.Agent.Terminals.{
  Session, Host, Manager, blank, start_session, start_unix_session, start_windows_session,
  enter_session, create_session, destroy_open, destroy_session, release, with_store, stored_of,
  entered_at, write_input, closed_session,
}

module _ {D : Type 0} (io : StoreIo D) (host : Host) where
  pub sessions-with_store :
      (f : SessionStore → D → Stored D) (m : Manager D)
      → (with_store io host f m).sessions ≡ m.sessions
  unfolding with_store
  sessions-with_store f m = ground arith

  pub effects-with_store :
      (f : SessionStore → D → Stored D) (m : Manager D)
      → (with_store io host f m).effects ≡ m.effects
  unfolding with_store
  effects-with_store f m = ground arith

  pub started-fields :
      (use_tmux : Bool) (s t : Session)
      → (start_session io host use_tmux s).0 ≡ some t
      → (t.id ≡ s.id)
        × (t.command ≡ s.command)
        × (t.project_dir ≡ s.project_dir)
        × (t.closed ≡ s.closed)
  unfolding start_session start_unix_session start_windows_session
  started-fields use_tmux s t e = ground (arith, e)

  pub create_session-some :
      (id : GoString) (now : ℕ) (project_dir command : GoString) (m : Manager D) (s : Session)
      → (create_session io host id now project_dir command m).1 ≡ some s
      → let started =
          start_session io host m.use_tmux
            (blank id (if str_eq command [] then text "claude" else command) project_dir now) in
        (started.0 ≡ some s)
        × ((create_session io host id now project_dir command m).0
            ≡ enter_session io host now s (record m { use_tmux = started.1 }))
  unfolding create_session
  create_session-some id now project_dir command m s e = elim (Option-cases started.0) [
    | inl none_ ↦ cc (rw (none_, create_session) at e)
    | inr (t, found) ↦ entered (found ∙ (rw (found, create_session) at e))
  ]
    where
      started : Option Session × Bool
      started =
          start_session io host m.use_tmux
            (blank id (if str_eq command [] then text "claude" else command) project_dir now)

      entered :
          started.0 ≡ some s
          → (started.0 ≡ some s)
            × ((create_session io host id now project_dir command m).0
                ≡ enter_session io host now s (record m { use_tmux = started.1 }))
      entered found = (found, rw (found, create_session) refl)

  -- A session that could be created stands in the manager under the id that it was given, and every
  -- other session is as it was. It runs in the directory that was asked for, with the command
  -- `claude` where none was given, and is not closed. Nothing that ran before is stopped.
  pub create_session-none :
      (id : GoString) (now : ℕ) (project_dir command : GoString) (m : Manager D)
      → (create_session io host id now project_dir command m).1 ≡ none
      → (start_session io host m.use_tmux
          (blank id (if str_eq command [] then text "claude" else command) project_dir now)).0
        ≡ none
  unfolding create_session
  create_session-none id now project_dir command m e = ground (arith, e)

  pub create_session_lem :
      (id : GoString) (now : ℕ) (project_dir command : GoString) (m : Manager D) (s : Session)
      (j : GoString)
      → (create_session io host id now project_dir command m).1 ≡ some s
      → let m' = (create_session io host id now project_dir command m).0 in
        (lookup j m'.sessions ≡ (if str_eq id j then some s else lookup j m.sessions))
        × (s.id ≡ id)
        × (s.command ≡ (if str_eq command [] then text "claude" else command))
        × (s.project_dir ≡ project_dir)
        × (s.closed ≡ false)
        × (m'.effects ≡ m.effects)
  unfolding enter_session
  create_session_lem id now project_dir command m s j e =
      let (found, after) = create_session-some id now project_dir command m s e in
      let (own, run, dir, open_) = started-fields m.use_tmux _ s found in
      rw (after) (
        ap (lookup j)
              (sessions-with_store (put io (entered_at host now) (stored_of io host s now)) _)
            ∙ lookup-insert s.id j s m.sessions
            ∙ ap (λ i. if str_eq i j then some s else lookup j m.sessions) own,
        own,
        run,
        dir,
        open_,
        effects-with_store (put io (entered_at host now) (stored_of io host s now)) _,
      )

  pub destroy_session-open :
      (id : GoString) (m : Manager D) (s : Session)
      → lookup id m.sessions ≡ some s
      → s.closed ≡ false
      → destroy_session io host id m
        ≡ (destroy_open io host id s m, some (record s { closed = true }))
  unfolding destroy_session
  destroy_session-open id m s found open_ = rw (found, destroy_session, open_) refl

  pub destroy_session-none :
      (id : GoString) (m : Manager D)
      → lookup id m.sessions ≡ none
      → destroy_session io host id m ≡ (m, none)
  unfolding destroy_session
  destroy_session-none id m gone = rw (gone, destroy_session) refl

  lookup-delete-own : (id : GoString) (l : GoMap Session) → lookup id (delete id l) ≡ none
  lookup-delete-own id l = rw (lookup-delete id id l, str_eq_refl id) refl

  pub destroy_session-gone :
      (id : GoString) (m : Manager D) → lookup id (destroy_session io host id m).0.sessions ≡ none
  unfolding destroy_session destroy_open
  destroy_session-gone id m =
      option_split (λ (r : Manager D × Option Session). lookup id r.0.sessions ≡ none)
        (lookup id m.sessions) (λ e. e)
        (λ s e.
          if_split (λ (r : Manager D × Option Session). lookup id r.0.sessions ≡ none) s.closed
            (λ _. lookup-delete-own id m.sessions)
            (λ _.
              ap (lookup id) (sessions-with_store (delete_session io id) _)
              ∙ lookup-delete-own id m.sessions))

  -- To destroy an open session releases everything that it holds, its tmux session first, takes it
  -- out of the manager and no other session with it, and leaves it closed for those who still hold
  -- it: their input is refused.
  pub destroy_session_lem :
      (id : GoString) (m : Manager D) (s : Session) (j : GoString)
      → lookup id m.sessions ≡ some s
      → s.closed ≡ false
      → let r = destroy_session io host id m in
        (r.0.effects ≡ m.effects ++ release id s)
        × (lookup j r.0.sessions ≡ (if str_eq id j then none else lookup j m.sessions))
        × (r.1 ≡ some (record s { closed = true }))
        × (write_input host (record s { closed = true }) ≡ closed_session)
  unfolding destroy_open write_input
  destroy_session_lem id m s j found open_ = rw (destroy_session-open id m s found open_) (
    effects-with_store (delete_session io id) _,
    ap (lookup j) (sessions-with_store (delete_session io id) _) ∙ lookup-delete id j m.sessions,
    refl,
    refl,
  )

  -- After a session is destroyed, or was not there, to destroy it again is an error and changes nothing.
  pub destroy_twice :
      (id : GoString) (m : Manager D)
      → destroy_session io host id (destroy_session io host id m).0
        ≡ ((destroy_session io host id m).0, none)
  destroy_twice id m =
      destroy_session-none id (destroy_session io host id m).0 (destroy_session-gone id m)
