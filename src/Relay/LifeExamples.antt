-- ===== src/Relay/LifeExamples.antt =====
-- The registry's refinement and the life of the process at concrete inputs.
use mathlib.Core.List.{Perm}
use mathlib.Core.Path.{subst}
use pocketclaude.Base.{
  false, ℕ, GoString, text, str_eq, str_eq_iff, ◌≡◌, ◌≢◌, ◌≤◌, ◌*◌, ◌+◌, ◌⊎◌, refl, Bool-cases, inl,
  inr, none, List, [], ◌∷◌,
}
use pocketclaude.Base.GoMap.{lookup}
use pocketclaude.Relay.Registry.{
  Conn, Registry, new, get, unregister, size, list_online, list_online_by_type,
}
use pocketclaude.Relay.Registry.Laws.{owned_by}
use pocketclaude.Relay.Registry.Refinement.{
  Call, registers, entry, perform_all, meaning_of_all, perform_all-Perm,
}
use pocketclaude.Relay.Presence.{second}
use pocketclaude.Relay.Presence.Gap.{
  Moment, scans, sweeps, beats as beats_at, registers as comes_in, online_entry, pass_all,
  online_entry-pass_all,
}
use pocketclaude.Relay.Presence.Schedule.{Happening, checks, beats, registers as joins}
use pocketclaude.Relay.Net.{World}
use pocketclaude.Relay.Examples.{calm}
use pocketclaude.Relay.Main.{
  Event, stopped, signalled, Process, Run, Step, begun, at_start, one_more, takes_signal,
  stops_presence, stop_presence, panicked, exited, stopping,
}
use pocketclaude.Relay.Main.Ending.{main_returns, code_of, verdict, goes_on}

abbrev events : List Happening
events =
    joins (text "pc") (text "agent") (text "k") 1 0
    ∷ joins (text "phone") (text "client") (text "k") 2 (5 * second)
    ∷ checks (60 * second)
    ∷ beats (text "pc") (70 * second)
    ∷ checks (96 * second)
    ∷ []

abbrev nobody : World
nobody = record { registry = []; writes = []; closed = [] }

-- The heartbeat of the computer comes after the scan that found it stale, and the phone comes back on
-- another connection.
abbrev moments : List Moment
moments =
    comes_in (text "pc") (text "agent") (text "k") 1 0
    ∷ comes_in (text "phone") (text "client") (text "k") 2 0
    ∷ scans (91 * second)
    ∷ beats_at (text "pc") (91 * second + 1)
    ∷ comes_in (text "phone") (text "client") (text "k") 3 (91 * second + 2)
    ∷ sweeps
    ∷ []

online_entry-pass_all_example :
    online_entry (text "pc") (pass_all calm moments (nobody, [])).0.registry ≡ none
unfolding str_eq lookup
online_entry-pass_all_example =
    online_entry-pass_all calm moments nobody (text "pc")
      ((λ e. cc, inl refl), ((λ e. cc, inr refl), (tt, (tt, ((λ e. cc, inr refl), (tt, tt))))))
      (tt, tt)

abbrev calls : List Call
calls =
    registers (text "pc") (text "agent") (text "k") 1 4
    ∷ registers (text "phone") (text "client") (text "k") 2 5
    ∷ []

-- The two devices in the other order than `perform_all` leaves them.
abbrev pc_first : Registry
pc_first =
    (text "pc", entry (text "pc") (text "agent") (text "k") 1 4)
    ∷ (text "phone", entry (text "phone") (text "client") (text "k") 2 5)
    ∷ []

same_devices : (j : GoString) → lookup j pc_first ≡ meaning_of_all calls (λ _. none) j
unfolding lookup
same_devices j = elim (Bool-cases (str_eq (text "pc") j)) [
  | inl own ↦
      subst (λ j. lookup j pc_first ≡ meaning_of_all calls (λ _. none) j)
        ((str_eq_iff (text "pc") j).0 own) (unfold str_eq in refl)
  | inr other ↦ rw other refl
]

perform_all-Perm_example :
    let r = perform_all calls new in
    ((j : GoString) → get r j ≡ meaning_of_all calls (λ _. none) j)
    × ((j : GoString) (conn : Conn)
        → (unregister r j conn).1 ≡ owned_by conn (meaning_of_all calls (λ _. none) j))
    × (size r ≡ size pc_first)
    × Perm (list_online r) (list_online pc_first)
    × ((ty : GoString) → Perm (list_online_by_type r ty) (list_online_by_type pc_first ty))
perform_all-Perm_example =
    perform_all-Perm calls pc_first (unfold lookup str_eq in (refl, (refl, tt))) same_devices

-- A signal comes before `go pres.Start()` has run, and Stop is called.
abbrev told : Process
told = record begun { place = stopping }

told_to_stop : Run (stopped ∷ signalled ∷ []) (stop_presence told)
unfolding begun
told_to_stop = one_more (one_more at_start (takes_signal begun refl)) (stops_presence told refl)

main_returns_example :
    let s = stop_presence told in
    (s.place ≢ panicked)
    × (code_of s.place ≡ none)
    × (s.looping ≡ false)
    × (2 ≤ 5)
    × (((code : ℕ) × (s.place ≡ exited code)) ⊎ ((e : Event) × (t : Process) × Step e s t))
unfolding verdict goes_on
main_returns_example = main_returns told_to_stop
