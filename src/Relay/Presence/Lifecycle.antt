-- ===== src/Relay/Presence/Lifecycle.antt =====
-- Start and Stop of the presence service as a state machine.
use pocketclaude.Base.{
  ◌≡◌, refl, true, false, Option, some, none, arith, List, [], ◌∷◌, ◌⊎◌, inr, ◌++◌, if◌then◌else◌,
}
use pocketclaude.Relay.Presence.{Presence, new, start, stop}

-- Start after Stop: the loop ends at once although the service counts as running, and the next
-- Stop closes a channel that is closed already, which panics.
restart_panics :
    (p q : Presence)
    → p.running ≡ true
    → stop p ≡ some q
    → ((start q).1 ≡ false) × (stop (start q).0 ≡ none)
unfolding start stop
restart_panics p q on stopped = ground arith

pub data Call : Type 0 where
  starts stops : Call

-- A run of calls; `none` is a panic.
pub run : Presence → List Call → Option Presence
run p [] = some p
run p (starts ∷ cs) = run (start p).0 cs
run p (stops ∷ cs) = elim (stop p) [ none ↦ none | some q ↦ run q cs ]

abbrev pub NoStart : List Call → Type 0
NoStart [] = Unit
NoStart (starts ∷ cs) = ⊥
NoStart (stops ∷ cs) = NoStart cs

-- A stop is harmless unless the channel is closed and the service still counts as running.
abbrev Stoppable : Presence → Type 0
Stoppable p = (p.running ≡ false) ⊎ (p.done_closed ≡ false)

stopped : Presence → Presence
stopped p = if p.running then record { done_closed = true; running = false } else p

stop-Stoppable : (p : Presence) → Stoppable p → (stop p ≡ some (stopped p)) × Stoppable (stopped p)
unfolding stop stopped
stop-Stoppable p ok = ground arith

run-Stoppable :
    (p : Presence) (cs : List Call)
    → NoStart cs
    → Stoppable p
    → (q : Presence) × (run p cs ≡ some q)
unfolding run
run-Stoppable p [] h ok = (p, refl)
run-Stoppable p (starts ∷ cs) h ok = absurd h
run-Stoppable p (stops ∷ cs) h ok =
    rw ((stop-Stoppable p ok).0, run) (run-Stoppable (stopped p) cs h (stop-Stoppable p ok).1)

-- A service that is started once, with any number of stops before and after, never panics.
pub started_once :
    (before after : List Call)
    → NoStart before
    → NoStart after
    → (q : Presence) × (run new (before ++ starts ∷ after) ≡ some q)
unfolding run stop start
started_once [] after hb ha =
    run-Stoppable (record { done_closed = false; running = true }) after ha (inr refl)
started_once (starts ∷ before) after hb ha = absurd hb
started_once (stops ∷ before) after hb ha = started_once before after hb ha
