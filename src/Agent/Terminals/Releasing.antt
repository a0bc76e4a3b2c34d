-- ===== src/Agent/Terminals/Releasing.antt =====
-- What a terminal manager has started and released.
pub mod Balance
use mathlib.Core.Path.{subst, ap₂}
use mathlib.Core.Option.{some-injective}
use mathlib.Core.List.{Perm, perm_append_comm}
use mathlib.Core.List.Perm
use pocketclaude.Base.{
  ℕ, GoString, text, str_eq, str_eq_iff, ◌≡◌, refl, ap, sym, ◌∙◌, Bool, Bool-cases, true, false,
  not, ◌&&◌, Option, Option-cases, option_split, none, some, inl, inr, List, [], ◌∷◌, ◌++◌,
  append-nil, append_assoc, filter, arith, if◌then◌else◌,
}
use pocketclaude.Base.GoMap.{
  GoMap, lookup, insert, delete, delete-none, values, Every, Every-delete, lookup-Every, Unique,
  delete-Unique,
}
use pocketclaude.Agent.SessionStore.{StoreIo, put, delete_session}
use pocketclaude.Agent.Terminals.{
  Session, Host, Manager, Effect, kill_tmux, kill_process, close_pty, close_win, new_manager,
  start_session, start_unix_session, start_windows_session, blank, stored_of, each, handles,
  release, create_session, enter_session, destroy_open, destroy_session, close_all, all_handles,
}
use pocketclaude.Agent.Terminals.Lifecycle.{
  effects-with_store, started-fields, create_session-some, destroy_session_lem,
  destroy_session-open, destroy_session-none, sessions-with_store,
}

-- What the host opens when a session is started, by what it answers: nothing in tmux, if that could be
-- done, else a console on Windows, and else a process with a PTY. It is named by its release.
unfoldable pub opened : Host → Bool → GoString → GoString → GoString → List Effect
opened host use_tmux id command project_dir =
    if use_tmux && not host.windows && host.create_tmux id command project_dir
    then []
    else if host.windows
    then elim (host.new_windows_session command project_dir) [
      | none ↦ []
      | some win ↦ close_win win ∷ []
    ]
    else elim (host.start_pty command project_dir) [
      | none ↦ []
      | some (pty, pid) ↦ kill_process pid ∷ close_pty pty ∷ []
    ]

-- A new session holds exactly what the host has opened for it.
pub handles-started :
    {D : Type 0} (io : StoreIo D) (host : Host) (use_tmux : Bool)
    (id command project_dir : GoString) (now : ℕ) (s : Session)
    → (start_session io host use_tmux (blank id command project_dir now)).0 ≡ some s
    → handles s ≡ opened host use_tmux id command project_dir
unfolding opened start_session start_unix_session start_windows_session
handles-started io host use_tmux id command project_dir now s e = ground (arith, e)

-- A session that could not be started leaves nothing open.
pub opened-failed :
    {D : Type 0} (io : StoreIo D) (host : Host) (use_tmux : Bool)
    (id command project_dir : GoString) (now : ℕ)
    → (start_session io host use_tmux (blank id command project_dir now)).0 ≡ none
    → opened host use_tmux id command project_dir ≡ []
unfolding opened start_session start_unix_session start_windows_session
opened-failed io host use_tmux id command project_dir now e = ground (arith, e)

-- The effect releases a handle.
unfoldable pub is_handle : Effect → Bool
is_handle (kill_tmux id) = false
is_handle (kill_process pid) = true
is_handle (close_pty pty) = true
is_handle (close_win win) = true

abbrev pub released : List Effect → List Effect
released = filter is_handle

pub filter-append : (xs ys : List Effect) → released (xs ++ ys) ≡ released xs ++ released ys
filter-append [] ys = refl
filter-append (x ∷ xs) ys = elim (Bool-cases (is_handle x)) [
  | inl keeps ↦ rw (keeps) (ap (◌∷◌ x) (filter-append xs ys))
  | inr drops ↦ rw (drops) (filter-append xs ys)
]

released-each :
    (f : ℕ → Effect) (o : Option ℕ)
    → ((h : ℕ) → is_handle (f h) ≡ true)
    → released (each f o) ≡ each f o
released-each f none h = refl
released-each f (some n) h = rw (h n) refl

pub released-handles : (s : Session) → released (handles s) ≡ handles s
unfolding is_handle
released-handles s =
    filter-append (each kill_process s.process ++ each close_pty s.pty_file) _
    ∙ ap₂ (λ x y. x ++ y)
        (filter-append (each kill_process s.process) _
          ∙ ap₂ (λ x y. x ++ y) (released-each kill_process s.process (λ h. refl))
              (released-each close_pty s.pty_file (λ h. refl)))
        (released-each close_win s.win_session (λ h. refl))

released-tmux : (id : GoString) (b : Bool) → released (if b then kill_tmux id ∷ [] else []) ≡ []
unfolding is_handle
released-tmux id true = refl
released-tmux id false = refl

pub released-release : (id : GoString) (s : Session) → released (release id s) ≡ handles s
unfolding release is_handle
released-release id s =
    filter-append (if s.uses_tmux then kill_tmux id ∷ [] else []) (handles s)
    ∙ ap (λ l. l ++ released (handles s)) (released-tmux id s.uses_tmux)
    ∙ released-handles s
