-- ===== src/Agent/Tmux.antt =====
-- agent/internal/pty/tmux.go. What running tmux does is the record Tmux, on a state of the host.
pub mod Stub
pub mod Names
pub mod Server
use pocketclaude.Base.{
  ℕ, zero, suc, ◌+◌, ◌/◌, ◌%◌, GoString, text, str_eq, has_prefix, Bool, true, false, not, ◌&&◌,
  ◌||◌, Option, none, some, List, [], ◌∷◌, ◌++◌, if◌then◌else◌, ltb, length, drop,
}
use pocketclaude.Agent.Git.{newline, trim_space, split}

-- What a finished command printed, and the text of its error.
pub record Ran : Type 0 where
  pub out : GoString
  pub err : Option GoString

-- exec.Command("tmux", args...): CombinedOutput, and Output with the standard output alone.
pub record Tmux (W : Type 0) : Type 0 where
  pub combined_output : List GoString → W → W × Ran
  pub output : List GoString → W → W × Ran

abbrev pub tmux_session_prefix : GoString
tmux_session_prefix = text "pocketclaude_"

abbrev pub full_name : GoString → GoString
full_name name = tmux_session_prefix ++ name

-- exec.LookPath gives the path of a program, if it is there.
abbrev pub has_tmux : (GoString → Option GoString) → Bool
has_tmux look_path = elim (look_path (text "tmux")) [ none ↦ false | some path ↦ true ]

-- fmt.Sprintf("%d", n), for numbers of up to twenty digits.
unfoldable pub digits : ℕ → ℕ → GoString
digits zero n = []
digits (suc k) n =
    let rest = digits k (n / 10) in if ltb n 10 then (48 + n) ∷ [] else rest ++ (48 + n % 10) ∷ []

abbrev pub decimal : ℕ → GoString
decimal n = digits 20 n

-- The error "tmux `what` failed: %w (%s)".
unfoldable pub failure_of : GoString → Ran → Option GoString
failure_of what r = elim r.err [
  | none ↦ none
  | some err ↦
      some (
        text "tmux "
        ++ what
        ++ text " failed: "
        ++ err
        ++ text " ("
        ++ trim_space r.out
        ++ text ")")
]

abbrev pub new_session_args : GoString → GoString → GoString → List GoString
new_session_args name command dir =
    text "new-session"
    ∷ text "-d"
    ∷ text "-s"
    ∷ full_name name
    ∷ text "-x"
    ∷ text "200"
    ∷ text "-y"
    ∷ text "50"
    ∷ ((if str_eq dir [] then [] else text "-c" ∷ dir ∷ []) ++ command ∷ [])

abbrev pub has_session_args : GoString → List GoString
has_session_args name = text "has-session" ∷ text "-t" ∷ full_name name ∷ []

abbrev pub capture_args : GoString → List GoString
capture_args name = text "capture-pane" ∷ text "-t" ∷ full_name name ∷ text "-p" ∷ text "-J" ∷ []

abbrev pub kill_session_args : GoString → List GoString
kill_session_args name = text "kill-session" ∷ text "-t" ∷ full_name name ∷ []

abbrev pub list_sessions_args : List GoString
list_sessions_args = text "list-sessions" ∷ text "-F" ∷ text "#{session_name}" ∷ []

-- What CaptureTmuxOutput and ListTmuxSessions return.
pub data Captured : Type 0 where
  captured not_captured : GoString → Captured

pub data Listing : Type 0 where
  listed : List GoString → Listing
  not_listed : GoString → Listing

-- strings.Contains
unfoldable pub contains : GoString → GoString → Bool
contains [] sub = has_prefix [] sub
contains (x ∷ s) sub = let rest = contains s sub in has_prefix (x ∷ s) sub || rest

-- The loop of ListTmuxSessions over the lines.
unfoldable pub session_names : List GoString → List GoString
session_names [] = []
session_names (line ∷ lines) =
    let name = trim_space line in
    let rest = session_names lines in
    if has_prefix name tmux_session_prefix
    then drop (length tmux_session_prefix) name ∷ rest
    else rest

-- Neither an error nor output.
unfoldable pub is_silent : Ran → Bool
is_silent r = elim r.err [ none ↦ str_eq (trim_space r.out) [] | some err ↦ false ]

module _ {W : Type 0} (tmux : Tmux W) where
  -- A command whose only result is its error.
  unfoldable pub run_checked : GoString → List GoString → W → W × Option GoString
  unfolding failure_of
  run_checked what args w = let (w', r) = tmux.combined_output args w in (w', failure_of what r)

  unfoldable pub create_tmux_session : GoString → GoString → GoString → W → W × Option GoString
  unfolding run_checked
  create_tmux_session name command dir =
      run_checked (text "new-session") (new_session_args name command dir)

  unfoldable pub tmux_session_exists : GoString → W → W × Bool
  unfolding is_silent
  tmux_session_exists name w =
      let (w', r) = tmux.combined_output (has_session_args name) w in (w', is_silent r)

  unfoldable pub capture_tmux_output : GoString → W → W × Captured
  capture_tmux_output name w =
      let (w', r) = tmux.output (capture_args name) w in
      (
        w',
        elim r.err [
          | none ↦ captured r.out
          | some err ↦ not_captured (text "tmux capture-pane failed: " ++ err)
        ],
      )

  unfoldable pub write_tmux_input : GoString → GoString → W → W × Option GoString
  unfolding run_checked
  write_tmux_input name input =
      run_checked (text "send-keys")
        (text "send-keys" ∷ text "-t" ∷ full_name name ∷ text "-l" ∷ input ∷ [])

  unfoldable pub write_tmux_key : GoString → GoString → W → W × Option GoString
  unfolding run_checked
  write_tmux_key name key =
      run_checked (text "send-keys") (text "send-keys" ∷ text "-t" ∷ full_name name ∷ key ∷ [])

  unfoldable pub kill_tmux_session : GoString → W → W × Option GoString
  unfolding run_checked
  kill_tmux_session name = run_checked (text "kill-session") (kill_session_args name)

  unfoldable pub list_tmux_sessions : W → W × Listing
  unfolding session_names contains
  list_tmux_sessions w =
      let (w', r) = tmux.output list_sessions_args w in
      (
        w',
        elim r.err [
          | none ↦ listed (session_names (split newline (trim_space r.out)))
          | some err ↦
              if contains err (text "no server running") || contains err (text "no sessions")
              then listed []
              else not_listed (text "tmux list-sessions failed: " ++ err)
        ],
      )

  unfoldable pub resize_tmux_session : GoString → ℕ → ℕ → W → W × Option GoString
  unfolding run_checked digits
  resize_tmux_session name width height = run_checked (text "resize-window") (
      text "resize-window"
      ∷ text "-t"
      ∷ full_name name
      ∷ text "-x"
      ∷ decimal width
      ∷ text "-y"
      ∷ decimal height
      ∷ [])
