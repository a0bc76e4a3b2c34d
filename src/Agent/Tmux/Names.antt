-- ===== src/Agent/Tmux/Names.antt =====
-- The sessions that ListTmuxSessions finds among those of the tmux server.
use pocketclaude.Base.{
  GoString, has_prefix, has_prefix-append, ◌≡◌, refl, ap, ◌∙◌, false, none, List, [], ◌∷◌, ◌++◌,
  length, drop-append, All,
}
use pocketclaude.Agent.Git.{newline, trim_space, split}
use pocketclaude.Agent.Git.Parsing.{Free, split-append, split-Free}
use pocketclaude.Agent.Tmux.{
  Tmux, tmux_session_prefix, full_name, list_sessions_args, listed, session_names,
  list_tmux_sessions,
}

-- A tmux session of the agent, by its id, or another one.
pub data TmuxSession : Type 0 where
  of_agent foreign : GoString → TmuxSession

abbrev pub name_of : TmuxSession → GoString
name_of (of_agent id) = full_name id
name_of (foreign name) = name

abbrev pub ids : List TmuxSession → List GoString
ids [] = []
ids (of_agent id ∷ ss) = id ∷ ids ss
ids (foreign name ∷ ss) = ids ss

-- The name is one line without white space around it, and only those of the agent have its prefix.
abbrev pub IsNamed : TmuxSession → Type 0
IsNamed s =
    Free newline (name_of s)
    × (trim_space (name_of s) ≡ name_of s)
    × elim s [ of_agent id ↦ Unit | foreign name ↦ has_prefix name tmux_session_prefix ≡ false ]

-- The names, with a newline between two.
unfoldable pub lines_of : TmuxSession → List TmuxSession → GoString
lines_of s [] = name_of s
lines_of s (t ∷ ss) = name_of s ++ newline ∷ lines_of t ss

session_names-∷ :
    (s : TmuxSession) (lines : List GoString)
    → IsNamed s
    → session_names (name_of s ∷ lines)
      ≡ elim s [ of_agent id ↦ id ∷ session_names lines | foreign name ↦ session_names lines ]
unfolding session_names
session_names-∷ (of_agent id) lines (free, trimmed, _) =
    rw
      (
        trimmed,
        has_prefix-append tmux_session_prefix id,
        drop-append (length tmux_session_prefix) tmux_session_prefix id refl,
      )
      refl
session_names-∷ (foreign name) lines (free, trimmed, other) = rw (trimmed, other) refl

session_names-lines_of :
    (s : TmuxSession) (ss : List TmuxSession)
    → All IsNamed (s ∷ ss)
    → session_names (split newline (lines_of s ss)) ≡ ids (s ∷ ss)
unfolding lines_of
session_names-lines_of (of_agent id) [] (h, _) =
    rw (split-Free newline (full_name id) h.0)
      (session_names-∷ (of_agent id) [] h ∙ unfold session_names in refl)
session_names-lines_of (foreign name) [] (h, _) =
    rw (split-Free newline name h.0)
      (session_names-∷ (foreign name) [] h ∙ unfold session_names in refl)
session_names-lines_of (of_agent id) (t ∷ ss) (h, hs) =
    rw (split-append newline (full_name id) (lines_of t ss) h.0 refl)
      (session_names-∷ (of_agent id) _ h ∙ ap (◌∷◌ id) (session_names-lines_of t ss hs))
session_names-lines_of (foreign name) (t ∷ ss) (h, hs) =
    rw (split-append newline name (lines_of t ss) h.0 refl)
      (session_names-∷ (foreign name) _ h ∙ session_names-lines_of t ss hs)

-- The tmux server prints the names of its sessions, at least one, a line for each, and without an
-- error. A name is one line without white space around it, and only sessions of the agent have its
-- prefix. Then ListTmuxSessions gives the ids of the agent's sessions, all and in order.
pub list_tmux_sessions-lines_of :
    {W : Type 0} (tmux : Tmux W) (w : W) (s : TmuxSession) (ss : List TmuxSession)
    → (tmux.output list_sessions_args w).1.err ≡ none
    → trim_space (tmux.output list_sessions_args w).1.out ≡ lines_of s ss
    → All IsNamed (s ∷ ss)
    → (list_tmux_sessions tmux w).1 ≡ listed (ids (s ∷ ss))
unfolding list_tmux_sessions
list_tmux_sessions-lines_of tmux w s ss fine prints named =
    rw (fine, list_tmux_sessions, prints) (ap listed (session_names-lines_of s ss named))
