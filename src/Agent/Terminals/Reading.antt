-- ===== src/Agent/Terminals/Reading.antt =====
-- readOutput of agent/internal/pty/manager.go as a goroutine: its reader, its endless loops, and the
-- channels that it closes.
use mathlib.Core.Option.{map}
use pocketclaude.Base.{
  ◌∙◌, arith, ℕ, zero, suc, ◌<◌, GoString, ◌≡◌, refl, ap, Bool, true, false, Option, none, some,
  List, [], ◌∷◌, if◌then◌else◌, ltb, length,
}
use pocketclaude.Agent.Terminals.{Session, Host}
use pocketclaude.Agent.Terminals.Output.{
  Sink, deliver, Read, read_output, Tick, gone, failed, captured, poll_tick, poll_tmux,
}

-- Where readOutput reads from.
pub data Reader : Type 0 where
  from_tmux : GoString → Reader
  from_windows from_pty : ℕ → Reader
  no_reader : Reader

unfoldable pub reader_of : Host → Session → Reader
reader_of host s =
    if s.uses_tmux then from_tmux s.id else elim (if host.windows then s.win_session else none) [
      | some win ↦ from_windows win
      | none ↦ elim s.pty_file [ some pty ↦ from_pty pty | none ↦ no_reader ]
    ]

module _ (has_handler : Bool) where
  -- The loop of readOutput, whose reads are numbered; `none` where it still runs after so many.
  unfoldable pub read_loop : ℕ → (ℕ → Read) → Sink → Option Sink
  unfolding deliver
  read_loop zero reads s = none
  read_loop (suc fuel) reads s =
      let (chunk, is_last) = reads 0 in
      let s' = if ltb 0 (length chunk) then deliver has_handler chunk s else s in
      let rest = read_loop fuel (λ n. reads (suc n)) s' in if is_last then some s' else rest

  -- The loop of pollTmuxOutput, whose ticks are numbered. Only readOutput closes Done, afterwards, so
  -- the loop never returns by it.
  unfoldable pub poll_loop : ℕ → (ℕ → Tick) → GoString → Sink → Option Sink
  unfolding poll_tick
  poll_loop zero ticks last s = none
  poll_loop (suc fuel) ticks last s = elim (ticks 0) [
    | gone ↦ some s
    | failed ↦ poll_loop fuel (λ n. ticks (suc n)) last s
    | captured current ↦
        poll_loop fuel (λ n. ticks (suc n)) current (poll_tick has_handler last current s)
  ]

-- The channels of a session.
pub data Channel : Type 0 where
  done_channel output_channel : Channel

-- The goroutine when it has returned: what went out, and the channels that it closed, in order.
pub record Returned : Type 0 where
  pub sink : Sink
  pub closed : List Channel

-- The deferred calls run last first.
abbrev pub returned_with : Sink → Returned
returned_with s = record { sink = s; closed = done_channel ∷ output_channel ∷ [] }

module _ (has_handler : Bool) (fuel : ℕ) (ticks : ℕ → Tick) (reads : ℕ → Read) where
  unfoldable pub read_session : Reader → Sink → Option Returned
  unfolding read_loop poll_loop
  read_session (from_tmux id) s = map returned_with (poll_loop has_handler fuel ticks [] s)
  read_session (from_windows win) s = map returned_with (read_loop has_handler fuel reads s)
  read_session (from_pty pty) s = map returned_with (read_loop has_handler fuel reads s)
  read_session no_reader s = some (returned_with s)

-- The first so many of a sequence.
abbrev pub first {ℓ} : {A : Type ℓ} → ℕ → (ℕ → A) → List A
first zero f = []
first (suc n) f = f 0 ∷ first n (λ i. f (suc i))

-- What the reader reads ends at number n: the session of tmux is gone, or a read fails.
abbrev pub IsEnd : (ℕ → Tick) → (ℕ → Read) → Reader → ℕ → Type 0
IsEnd ticks reads (from_tmux id) n = ticks n ≡ gone
IsEnd ticks reads (from_windows win) n = (reads n).1 ≡ true
IsEnd ticks reads (from_pty pty) n = (reads n).1 ≡ true
IsEnd ticks reads no_reader n = Unit

-- What goes out for a list of ticks and one of reads.
abbrev pub sink_of : Bool → List Tick → List Read → Reader → Sink → Sink
sink_of has_handler ticks reads (from_tmux id) s = (poll_tmux has_handler ticks [] s).1
sink_of has_handler ticks reads (from_windows win) s = read_output has_handler reads s
sink_of has_handler ticks reads (from_pty pty) s = read_output has_handler reads s
sink_of has_handler ticks reads no_reader s = s

tick_split {ℓ} :
    (P : Tick → Type ℓ) (t : Tick)
    → (t ≡ gone → P gone)
    → (t ≡ failed → P failed)
    → ((c : GoString) → t ≡ captured c → P (captured c))
    → P t
tick_split P gone hg hf hc = hg refl
tick_split P failed hg hf hc = hf refl
tick_split P (captured c) hg hf hc = hc c refl

some_if : (b : Bool) (x y : Sink) → (if b then some x else some y) ≡ some (if b then x else y)
some_if true x y = refl
some_if false x y = refl

module _ (has_handler : Bool) where
  poll_loop-gone :
      (n fuel : ℕ) (ticks : ℕ → Tick) (last : GoString) (s : Sink)
      → n < fuel
      → ticks n ≡ gone
      → poll_loop has_handler fuel ticks last s
        ≡ some (poll_tmux has_handler (first (suc n) ticks) last s).1
  unfolding poll_loop poll_tmux
  poll_loop-gone n zero ticks last s more ends = absurd (omega arith)
  poll_loop-gone zero (suc fuel) ticks last s more ends = rw (ends, poll_loop, poll_tmux) refl
  poll_loop-gone (suc n) (suc fuel) ticks last s more ends =
      tick_split
        (λ t.
          elim t [
            | gone ↦ some s
            | failed ↦ poll_loop has_handler fuel (λ n. ticks (suc n)) last s
            | captured current ↦
                poll_loop has_handler fuel (λ n. ticks (suc n)) current
                  (poll_tick has_handler last current s)
          ]
          ≡ some (poll_tmux has_handler (t ∷ first (suc n) (λ i. ticks (suc i))) last s).1)
        (ticks 0) (λ _. refl)
        (λ _. poll_loop-gone n fuel (λ i. ticks (suc i)) last s (omega arith) ends)
        (λ current _.
          poll_loop-gone n fuel (λ i. ticks (suc i)) current (poll_tick has_handler last current s)
            (omega arith) ends)

  read_loop-fails :
      (n fuel : ℕ) (reads : ℕ → Read) (s : Sink)
      → n < fuel
      → (reads n).1 ≡ true
      → read_loop has_handler fuel reads s ≡ some (read_output has_handler (first (suc n) reads) s)
  unfolding read_loop read_output
  read_loop-fails n zero reads s more ends = absurd (omega arith)
  read_loop-fails zero (suc fuel) reads s more ends = rw (ends) refl
  read_loop-fails (suc n) (suc fuel) reads s more ends =
      let s' = if ltb 0 (length (reads 0).0) then deliver has_handler (reads 0).0 s else s in
      ap (λ rest. if (reads 0).1 then some s' else rest)
        (read_loop-fails n fuel (λ i. reads (suc i)) s' (omega arith) ends)
      ∙ some_if (reads 0).1 s' _

-- The reader of a session returns at its end, whether tmux no longer has the session or a read
-- fails: with enough steps to get there, what has gone out is what the reads up to there give, and
-- Done and then Output are closed.
pub read_session_lem :
    (has_handler : Bool) (n fuel : ℕ) (ticks : ℕ → Tick) (reads : ℕ → Read) (r : Reader) (s : Sink)
    → n < fuel
    → IsEnd ticks reads r n
    → read_session has_handler fuel ticks reads r s
      ≡ some (record {
        sink = sink_of has_handler (first (suc n) ticks) (first (suc n) reads) r s;
        closed = done_channel ∷ output_channel ∷ [];
      })
unfolding read_session
read_session_lem has_handler n fuel ticks reads (from_tmux id) s more ends =
    ap (map returned_with) (poll_loop-gone has_handler n fuel ticks [] s more ends)
read_session_lem has_handler n fuel ticks reads (from_windows win) s more ends =
    ap (map returned_with) (read_loop-fails has_handler n fuel reads s more ends)
read_session_lem has_handler n fuel ticks reads (from_pty pty) s more ends =
    ap (map returned_with) (read_loop-fails has_handler n fuel reads s more ends)
read_session_lem has_handler n fuel ticks reads no_reader s more ends = refl
