-- ===== src/Agent/TmuxExamples.antt =====
-- The functions on tmux at concrete inputs.
use pocketclaude.Base.{
  ℕ, suc, zero, GoString, text, str_eq, str_eq_iff, str_eq_refl, has_prefix, ◌≡◌, refl, Bool-cases,
  true, false, none, some, inl, inr, List, [], ◌∷◌, arith,
}
use pocketclaude.Base.GoMap.{lookup, insert}
use pocketclaude.Agent.Git.{trim_left, trim_right}
use pocketclaude.Agent.Tmux.{full_name, kill_tmux_session, run_checked, list_tmux_sessions, listed}
use pocketclaude.Agent.Tmux.Server.{is_name_byte}
use pocketclaude.Agent.Tmux.Names.{of_agent, foreign, lines_of, list_tmux_sessions-lines_of}
use pocketclaude.Agent.Terminals.{
  Session, Manager, blank, new_manager, destroy_session, destroy_open, release, with_store,
}
use pocketclaude.Agent.Terminals.Output.{Sink, Read, Tick, gone}
use pocketclaude.Agent.Terminals.Reading.{
  reader_of, read_session, read_session_lem, sink_of, first, from_tmux, from_pty, done_channel,
  output_channel,
}
use pocketclaude.Agent.Terminals.Platform.{Platform, host_of, tick_of, apply_all, apply_effect}
use pocketclaude.Agent.Terminals.Stopping.{destroy_session-read_session}
use pocketclaude.Agent.SessionStore.{new_session_store, StoreIo, bytes}
use pocketclaude.Agent.TerminalExamples.{unix}
use pocketclaude.Agent.SmallTmux.{runs_in, without, run, small_tmux, small_server}

only_work :
    (n : GoString)
    → has_prefix n (full_name (text "a")) ≡ true
    → runs_in (text "work" ∷ []) n ≡ false
unfolding runs_in
only_work n begins = elim (Bool-cases (str_eq n (text "work"))) [
  | inl same ↦
      (let begins' = rw ((str_eq_iff n (text "work")).0 same) at begins in
        absurd (unfold has_prefix in cc begins'))
  | inr other ↦ rw other refl
]

list_tmux_sessions-lines_of_example : (list_tmux_sessions small_tmux []).1 ≡ listed (text "a" ∷ [])
list_tmux_sessions-lines_of_example =
    list_tmux_sessions-lines_of small_tmux [] (of_agent (text "a")) (foreign (text "work") ∷ [])
      refl (unfold lines_of trim_left trim_right str_eq in refl)
      (unfold has_prefix trim_left trim_right str_eq in
        (
          (
            (
              refl,
              (
                refl,
                (
                  refl,
                  (
                    refl,
                    (
                      refl,
                      (refl, (refl, (refl, (refl, (refl, (refl, (refl, (refl, (refl, tt))))))))),
                    ),
                  ),
                ),
              ),
            ),
            refl,
            tt,
          ),
          (((refl, (refl, (refl, (refl, tt)))), refl, refl), tt),
        ))

abbrev no_store : StoreIo GoString
no_store = record {
  marshal = λ stored. none;
  unmarshal = λ b. none;
  read = bytes;
  mkdir_all = λ disk. (disk, false);
  write = λ disk b. (disk, false);
}

abbrev small_platform : Platform (List GoString)
small_platform = record {
  windows = false;
  look_path = λ program. some (text "/usr/bin/tmux");
  tmux = small_tmux;
  pty_start = λ command dir. none;
  conpty_start = λ command options. none;
  conpty_resize = λ win cols rows. none;
  signal = λ pid. false;
  tick = λ t. t;
}

abbrev in_pty : Session
in_pty = record (blank (text "b") (text "claude") (text "/srv") 4) { pty_file = some 5 }

abbrev in_tmux : Session
in_tmux = record (blank (text "a") (text "claude") (text "/srv") 4) { uses_tmux = true }

abbrev with_session : Manager GoString
with_session = record (new_manager (host_of small_platform []) []) {
  sessions = insert (text "a") in_tmux [];
}

abbrev sessions : List GoString
sessions = full_name (text "a") ∷ text "work" ∷ []

-- From the third tick on, the session is killed.
unfoldable worlds : ℕ → List GoString
worlds zero = sessions
worlds (suc zero) = sessions
worlds (suc (suc n)) = text "work" ∷ []

abbrev before : Manager GoString
before = record (new_manager (host_of small_platform []) []) { store = some new_session_store }

abbrev begun_s : Session
begun_s = record (blank (text "s") (text "claude") [] 0) { uses_tmux = true }

abbrev nothing_out : Sink
nothing_out = record { channel = []; handled = [] }

alone :
    (small_server.runs sessions (full_name (text "a")) ≡ true)
    × ((n : GoString)
        → has_prefix n (full_name (text "a")) ≡ true
        → str_eq n (full_name (text "a")) ≡ false
        → small_server.runs sessions n ≡ false)
unfolding small_server runs_in
alone =
    (rw (str_eq_refl (full_name (text "a"))) refl, λ n begins other. rw other (only_work n begins))

destroy_session-read_session_example :
    let ticks : ℕ → Tick = λ i. (tick_of small_platform (text "a") (worlds i)).1 in
    let reads : ℕ → Read = λ i. ([], false) in
    read_session true 9 ticks reads (reader_of unix in_tmux) nothing_out
    ≡ some (record {
      sink = sink_of true (first 3 ticks) (first 3 reads) (from_tmux (text "a")) nothing_out;
      closed = done_channel ∷ output_channel ∷ [];
    })
unfolding new_manager
destroy_session-read_session_example =
    destroy_session-read_session small_platform no_store unix small_server (text "a") with_session
      in_tmux sessions worlds (λ i. ([], false)) true nothing_out 2 9
      (unfold insert lookup str_eq in refl) refl refl refl refl (unfold is_name_byte in (refl, tt))
      (unfold apply_all in alone)
      (unfold worlds destroy_session destroy_open release with_store lookup insert str_eq apply_all
          apply_effect kill_tmux_session run_checked run without in
        refl)
      (omega arith)

read_session_lem_example :
    let ticks : ℕ → Tick = λ i. gone in
    let reads : ℕ → Read = λ i. (text "ok", true) in
    read_session true 5 ticks reads (reader_of unix in_pty) nothing_out
    ≡ some (record {
      sink = sink_of true (first 1 ticks) (first 1 reads) (from_pty 5) nothing_out;
      closed = done_channel ∷ output_channel ∷ [];
    })
unfolding reader_of
read_session_lem_example =
    read_session_lem true 0 5 (λ i. gone) (λ i. (text "ok", true)) (from_pty 5) nothing_out
      (omega arith) refl
