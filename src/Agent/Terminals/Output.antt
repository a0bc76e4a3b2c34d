-- ===== src/Agent/Terminals/Output.antt =====
-- readOutput and pollTmuxOutput of agent/internal/pty/manager.go. The channel is the list of what
-- was put into it, as nothing of the agent takes anything out.
use pocketclaude.Base.{
  ℕ, GoString, str_eq, Bool, not, ◌&&◌, List, [], ◌∷◌, ◌++◌, if◌then◌else◌, ltb, length, take, drop,
}

-- What was put into the channel Output, and what onOutput was called with.
pub record Sink : Type 0 where
  pub channel : List GoString
  pub handled : List GoString

-- `make(chan []byte, 1024)`
abbrev pub capacity : ℕ
capacity = 1024

-- A chunk goes into the channel if there is room, and to the handler if there is one.
unfoldable pub deliver : Bool → GoString → Sink → Sink
deliver has_handler chunk s = record {
  channel = if ltb (length s.channel) capacity then s.channel ++ chunk ∷ [] else s.channel;
  handled = if has_handler then s.handled ++ chunk ∷ [] else s.handled;
}

-- One Read: the bytes that were read, and whether it returned an error.
abbrev pub Read : Type 0
Read = GoString × Bool

-- The loop of readOutput over the reads as they come.
unfoldable pub read_output : Bool → List Read → Sink → Sink
unfolding deliver
read_output has_handler [] s = s
read_output has_handler ((chunk, failed) ∷ reads) s =
    let s' = if ltb 0 (length chunk) then deliver has_handler chunk s else s in
    let rest = read_output has_handler reads s' in if failed then s' else rest

-- A tick of pollTmuxOutput: the tmux session is gone, its pane cannot be captured, or its text.
pub data Tick : Type 0 where
  gone failed : Tick
  captured : GoString → Tick

-- What is new in the pane.
unfoldable pub pane_diff : GoString → GoString → GoString
pane_diff last current =
    if not (str_eq last [])
      && ltb (length last) (length current)
      && str_eq (take (length last) current) last
    then drop (length last) current
    else current

unfoldable pub poll_tick : Bool → GoString → GoString → Sink → Sink
unfolding pane_diff deliver
poll_tick has_handler last current s =
    if str_eq current last
    then s
    else if str_eq (pane_diff last current) []
    then s
    else deliver has_handler (pane_diff last current) s

-- The loop: the last pane that was captured, and the sink.
unfoldable pub poll_tmux : Bool → List Tick → GoString → Sink → GoString × Sink
unfolding poll_tick
poll_tmux has_handler [] last s = (last, s)
poll_tmux has_handler (gone ∷ ticks) last s = (last, s)
poll_tmux has_handler (failed ∷ ticks) last s = poll_tmux has_handler ticks last s
poll_tmux has_handler (captured current ∷ ticks) last s =
    poll_tmux has_handler ticks current (poll_tick has_handler last current s)
