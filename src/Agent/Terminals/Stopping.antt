-- ===== src/Agent/Terminals/Stopping.antt =====
-- How the reader of a destroyed session comes to its end.
use mathlib.Core.Path.{subst}
use pocketclaude.Base.{
  ℕ, suc, ◌<◌, GoString, str_eq, has_prefix, ◌≡◌, refl, ap, sym, ◌∙◌, Bool, Bool-cases, true, false,
  Option, none, some, inl, inr, List, [], ◌∷◌, ◌++◌, All, if◌then◌else◌,
}
use pocketclaude.Base.GoMap.{lookup}
use pocketclaude.Agent.SessionStore.{StoreIo}
use pocketclaude.Agent.Tmux.{full_name, kill_tmux_session}
use pocketclaude.Agent.Tmux.Server.{
  is_name_byte, IsServer, NoneLike, tmux_session_exists-false, runs-killed,
}
use pocketclaude.Agent.Terminals.{
  Session, Host, Manager, Effect, kill_process, close_pty, close_win, each, handles, release,
  destroy_session,
}
use pocketclaude.Agent.Terminals.Lifecycle.{destroy_session_lem}
use pocketclaude.Agent.Terminals.Output.{Sink, Read, Tick, gone}
use pocketclaude.Agent.Terminals.Reading.{
  reader_of, read_session, read_session_lem, sink_of, first, from_tmux, done_channel,
  output_channel,
}
use pocketclaude.Agent.Terminals.Platform.{Platform, apply_effect, apply_all, tick_of}

module _ {W : Type 0} (p : Platform W) where
  pub apply_all-append :
      (es fs : List Effect) (w : W) → apply_all p (es ++ fs) w ≡ apply_all p fs (apply_all p es w)
  unfolding apply_all
  apply_all-append [] fs w = refl
  apply_all-append (e ∷ es) fs w = apply_all-append es fs (apply_effect p e w)

  apply_all-each :
      (es : List Effect) (f : ℕ → Effect) (o : Option ℕ) (w : W)
      → ((h : ℕ) (w : W) → apply_effect p (f h) w ≡ w)
      → apply_all p (es ++ each f o) w ≡ apply_all p es w
  unfolding apply_all
  apply_all-each es f none w same = apply_all-append es [] w
  apply_all-each es f (some h) w same = apply_all-append es (f h ∷ []) w ∙ same h (apply_all p es w)

  -- Processes and PTYs are not the tmux server's.
  pub apply_all-handles : (s : Session) (w : W) → apply_all p (handles s) w ≡ w
  unfolding apply_effect apply_all
  apply_all-handles s w =
      apply_all-each (each kill_process s.process ++ each close_pty s.pty_file) close_win
        s.win_session w (λ h w. refl)
      ∙ apply_all-each (each kill_process s.process) close_pty s.pty_file w (λ h w. refl)
      ∙ apply_all-each [] kill_process s.process w (λ h w. refl)

  apply_all-release :
      (id : GoString) (s : Session) (w : W)
      → s.uses_tmux ≡ true
      → p.windows ≡ false
      → apply_all p (release id s) w ≡ (kill_tmux_session p.tmux id w).0
  unfolding release apply_all apply_effect
  apply_all-release id s w tmux unix =
      rw (tmux, unix, apply_all, apply_effect)
        (apply_all-handles s (kill_tmux_session p.tmux id w).0)

  tick_of-gone :
      (server : IsServer p.tmux) (id : GoString) (w : W)
      → All (λ b. is_name_byte b ≡ true) id
      → NoneLike server id w
      → (tick_of p id w).1 ≡ gone
  unfolding tick_of
  tick_of-gone server id w named alone =
      rw (tmux_session_exists-false p.tmux server id w named alone, tick_of) refl

  -- Only the session of the agent itself runs under a name that begins as its.
  abbrev pub RunsAlone : IsServer p.tmux → GoString → W → Type 0
  RunsAlone server id w =
      (server.runs w (full_name id) ≡ true)
      × ((n : GoString)
          → has_prefix n (full_name id) ≡ true
          → str_eq n (full_name id) ≡ false
          → server.runs w n ≡ false)

  killed-NoneLike :
      (server : IsServer p.tmux) (id : GoString) (w : W)
      → All (λ b. is_name_byte b ≡ true) id
      → RunsAlone server id w
      → NoneLike server id (kill_tmux_session p.tmux id w).0
  killed-NoneLike server id w named (runs, alone) n begins =
      let ends = (runs-killed p.tmux server id w named runs).1 n in
      elim (Bool-cases (str_eq n (full_name id))) [
        | inl same ↦ ends ∙ ap (λ b. if b then false else server.runs w n) same
        | inr other ↦
            ends ∙ ap (λ b. if b then false else server.runs w n) other ∙ alone n begins other
      ]

  module _ {D : Type 0} (io : StoreIo D) (host : Host) where
    -- A session of tmux, on a host with tmux, is destroyed; no byte of its id is special to tmux, and no other session's name begins as its
    -- own. At some later tick the tmux server is as the effects of the manager leave it. Then the
    -- session's reader has returned by that tick: what has gone out is what the ticks give, and the
    -- channels Done and Output are closed.
    pub destroy_session-read_session :
        (server : IsServer p.tmux) (id : GoString) (m : Manager D) (s : Session) (start : W)
        (worlds : ℕ → W) (reads : ℕ → Read) (has_handler : Bool) (sink : Sink) (n fuel : ℕ)
        → lookup id m.sessions ≡ some s
        → s.closed ≡ false
        → s.id ≡ id
        → s.uses_tmux ≡ true
        → p.windows ≡ false
        → All (λ b. is_name_byte b ≡ true) id
        → RunsAlone server id (apply_all p m.effects start)
        → worlds n ≡ apply_all p (destroy_session io host id m).0.effects start
        → n < fuel
        → let ticks : ℕ → Tick = λ i. (tick_of p id (worlds i)).1 in
          read_session has_handler fuel ticks reads (reader_of host s) sink
          ≡ some (record {
            sink =
                sink_of has_handler (first (suc n) ticks) (first (suc n) reads) (from_tmux id) sink;
            closed = done_channel ∷ output_channel ∷ [];
          })
    unfolding reader_of
    destroy_session-read_session server id m s start worlds reads has_handler sink n fuel found
          open_ own tmux unix named alone later more =
        rw (tmux, reader_of, own)
          (read_session_lem has_handler n fuel _ reads (from_tmux id) sink more at_end)
      where
        killed : worlds n ≡ (kill_tmux_session p.tmux id (apply_all p m.effects start)).0
        killed =
            later
            ∙ ap (λ es. apply_all p es start) (destroy_session_lem io host id m s id found open_).0
            ∙ apply_all-append m.effects (release id s) start
            ∙ apply_all-release id s (apply_all p m.effects start) tmux unix

        at_end : (tick_of p id (worlds n)).1 ≡ gone
        at_end = tick_of-gone server id (worlds n) named (
            subst (NoneLike server id) (sym killed)
              (killed-NoneLike server id (apply_all p m.effects start) named alone))
