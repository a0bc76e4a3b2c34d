-- ===== src/Agent/Daemon/Starting.antt =====
-- The terminals that start begins with hold nothing.
use mathlib.Core.Path.{subst}
use mathlib.Core.List.{Perm}
use mathlib.Core.List.Perm
use pocketclaude.Base.{
  ℕ, str_eq, not, Bool, ◌≡◌, refl, ap, sym, ◌∙◌, false, none, some, List, [], ◌∷◌, ◌++◌, if_split,
  option_split, if◌then◌else◌,
}
use pocketclaude.Base.GoMap.{GoMap, insert, values, Unique, insert-Unique, Every, Every-insert}
use pocketclaude.Agent.SessionStore.{
  StoredSession, StoreIo, Stored, SessionStore, put, delete_session, load, list_sessions,
}
use pocketclaude.Agent.Terminals.{
  Session, Host, Manager, Effect, handles, all_handles, restored, with_store, new_manager,
  restore_one, restore_all, restore_sessions,
}
use pocketclaude.Agent.Terminals.Lifecycle.{effects-with_store, sessions-with_store}
use pocketclaude.Agent.Terminals.Releasing.{released}
use pocketclaude.Agent.Terminals.Releasing.Balance.{held, IsBalanced}
use pocketclaude.Agent.Cipher.{Crypto}
use pocketclaude.Agent.Pairing.{PairIo}
use pocketclaude.Agent.Keys.{ConfigIo, default_config_dir}
use pocketclaude.Agent.Commands.{start_terminals}

all_open :
    (ss : GoMap Session)
    → Every (λ id s. (s.closed ≡ false) × (handles s ≡ [])) ss
    → Every (λ id s. s.closed ≡ false) ss
all_open [] h = tt
all_open ((id, s) ∷ ss) h = (h.0.0, all_open ss h.1)

module _ {D : Type 0} (store_io : StoreIo D) (host : Host) where
  all_handles-none :
      (ss : GoMap Session)
      → Every (λ id s. (s.closed ≡ false) × (handles s ≡ [])) ss
      → all_handles store_io host (values ss) ≡ []
  unfolding all_handles
  all_handles-none [] h = refl
  all_handles-none ((id, s) ∷ ss) h =
      ap (λ l. l ++ all_handles store_io host (values ss)) h.0.1 ∙ all_handles-none ss h.1

  -- The sessions hold nothing, and nothing has been released.
  record IsIdle (ss : GoMap Session) (effects : List Effect) : Type 0 where
    pub once : Unique ss
    pub empty : Every (λ id s. (s.closed ≡ false) × (handles s ≡ [])) ss
    pub unused : effects ≡ []

  Idle : Manager D → Type 0
  Idle m = IsIdle m.sessions m.effects

  with_store-Idle :
      (f : SessionStore → D → Stored D) (m : Manager D)
      → IsIdle m.sessions m.effects
      → IsIdle (with_store store_io host f m).sessions (with_store store_io host f m).effects
  with_store-Idle f m h = record {
    once = subst Unique (sym (sessions-with_store store_io host f m)) h.once;
    empty =
        subst (Every (λ id s. (s.closed ≡ false) × (handles s ≡ [])))
          (sym (sessions-with_store store_io host f m)) h.empty;
    unused = effects-with_store store_io host f m ∙ h.unused;
  }

  restore_one-Idle :
      (now : ℕ) (ss : StoredSession) (m : Manager D)
      → Idle m
      → Idle (restore_one store_io host now ss m)
  unfolding Idle restore_one
  restore_one-Idle now ss m h =
      if_split Idle (not ss.uses_tmux) (λ _. h)
        (λ _.
          if_split Idle (not (host.tmux_exists ss.id))
            (λ _. with_store-Idle (delete_session store_io ss.id) m h)
            (λ _.
              with_store-Idle (put store_io now ss)
                (record m { sessions = insert ss.id (restored ss) m.sessions })
                (record {
                  once = insert-Unique ss.id (restored ss) m.sessions h.once;
                  empty =
                      Every-insert (λ id s. (s.closed ≡ false) × (handles s ≡ [])) ss.id
                        (restored ss) m.sessions (refl, refl) h.empty;
                  unused = h.unused;
                })))

  restore_all-Idle :
      (now : ℕ) (stored : List StoredSession) (m : Manager D)
      → Idle m
      → Idle (restore_all store_io host now stored m)
  unfolding restore_all
  restore_all-Idle now [] m h = h
  restore_all-Idle now (ss ∷ stored) m h =
      restore_all-Idle now stored (restore_one store_io host now ss m) (restore_one-Idle now ss m h)

  restore_sessions-Idle :
      (now : ℕ) (m : Manager D) → Idle m → Idle (restore_sessions store_io host now m).0
  unfolding Idle restore_sessions
  restore_sessions-Idle now m h =
      option_split (λ (r : Manager D × Bool). Idle r.0) (if m.use_tmux then m.store else none)
        (λ _. h)
        (λ st _.
          if_split (λ (r : Manager D × Bool). Idle r.0) (load store_io st m.disk).1
            (λ _.
              restore_all-Idle now (list_sessions store_io (load store_io st m.disk).0)
                (record m { store = some (load store_io st m.disk).0 }) h)
            (λ _. h))

  -- The terminals that start begins with, from whatever is stored, hold no process, PTY or console.
  pub start_terminals-IsBalanced :
      (c : Crypto) (io : ConfigIo D) (net : PairIo) (now : ℕ) (disk : D)
      → IsBalanced store_io host (start_terminals c io net store_io host now disk) []
  unfolding start_terminals Idle new_manager
  start_terminals-IsBalanced c io net now disk =
      let begun : Idle (new_manager host disk) = record { once = tt; empty = tt; unused = refl } in
      let h : Idle (start_terminals c io net store_io host now disk) =
        option_split Idle (default_config_dir io) (λ _. begun)
          (λ dir _.
            if_split Idle (str_eq dir []) (λ _. begun)
              (λ _.
                restore_sessions-Idle now _ (record { once = tt; empty = tt; unused = refl }))) in
      record {
        once = h.once;
        open_ = all_open _ h.empty;
        balance =
            subst (Perm [])
              (sym (
                ap
                  (λ l.
                    released l
                    ++ held store_io host
                        (start_terminals c io net store_io host now disk).sessions)
                  h.unused
                ∙ all_handles-none _ h.empty))
              Perm.nil;
      }
