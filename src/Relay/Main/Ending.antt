-- ===== src/Relay/Main/Ending.antt =====
-- How the process of the relay ends.
use pocketclaude.Base.{
  Bool, Option, List, [], ◌∷◌, length, ℕ, suc, ◌+◌, ◌≤◌, ◌≡◌, ◌≢◌, ◌⊎◌, refl, sym, ◌∙◌, true, false,
  none, some, inl, inr, arith, if◌then◌else◌,
}
use pocketclaude.Relay.Presence.{start, stop}
use pocketclaude.Relay.Main.{
  Place, Event, presence_started, signalled, stopped, server_returned, taken, shut_down, no_error,
  server_closed, other_error, selecting, stopping, shutting_down, exited, panicked, Process, begun,
  is_fatal, take_error, stop_presence, start_presence, after_shutdown, is_running, Step,
  presence_starts, server_returns, takes_error, takes_signal, stops_presence, shuts_down, Run,
  at_start, one_more,
}

-- The steps that main, the presence checker and the server have still to make.
unfoldable main_left : Place → ℕ
main_left selecting = 3
main_left stopping = 2
main_left shutting_down = 1
main_left (exited code) = 0
main_left panicked = 0

unfoldable left : Process → ℕ
unfolding main_left
left s =
    main_left s.place + (if s.started then 0 else 1) + elim s.server_err [ none ↦ 1 | some err ↦ 0 ]

-- Done is closed by main alone, after the select.
unfoldable IsOrderly : Process → Type 0
IsOrderly s = elim s.place [
  | selecting ↦ s.presence.done_closed ≡ false
  | stopping ↦ s.presence.done_closed ≡ false
  | shutting_down ↦ Unit
  | exited code ↦ Unit
  | panicked ↦ ⊥
]

step-left : {e : Event} (s t : Process) → Step e s t → suc (left t) ≤ left s
unfolding left main_left start_presence start take_error is_fatal stop_presence after_shutdown stop
    is_running
step-left _ _ (presence_starts s fresh on) = ground arith
step-left _ _ (server_returns s err fresh on) = ground arith
step-left _ _ (takes_error s err at full) = ground arith
step-left _ _ (takes_signal s at) = ground arith
step-left _ _ (stops_presence s at) = ground arith
step-left _ _ (shuts_down s fine at) = ground arith

step-IsOrderly : {e : Event} (s t : Process) → Step e s t → IsOrderly s → IsOrderly t
unfolding IsOrderly start_presence start take_error is_fatal stop_presence after_shutdown stop
    is_running
step-IsOrderly _ _ (presence_starts s fresh on) h = ground arith
step-IsOrderly _ _ (server_returns s err fresh on) h = h
step-IsOrderly _ _ (takes_error s err at full) h = ground arith
step-IsOrderly _ _ (takes_signal s at) h = ground arith
step-IsOrderly _ _ (stops_presence s at) h = ground arith
step-IsOrderly _ _ (shuts_down s fine at) h = tt

Run-IsOrderly : {es : List Event} {s : Process} → Run es s → IsOrderly s
unfolding IsOrderly begun
Run-IsOrderly at_start = refl
Run-IsOrderly (one_more r step) = step-IsOrderly _ _ step (Run-IsOrderly r)

Run-left : {es : List Event} {s : Process} → Run es s → length es + left s ≤ 5
unfolding left main_left begun
Run-left at_start = omega arith
Run-left (one_more r step) = omega (arith, Run-left r, step-left _ _ step)

ended_or_steps :
    (s : Process)
    → IsOrderly s
    → ((code : ℕ) × (s.place ≡ exited code)) ⊎ ((e : Event) × (t : Process) × Step e s t)
unfolding IsOrderly
ended_or_steps s h = place_split s.place refl
  where
    place_split :
        (p : Place)
        → s.place ≡ p
        → ((code : ℕ) × (s.place ≡ exited code)) ⊎ ((e : Event) × (t : Process) × Step e s t)
    place_split selecting at = inr (_, _, takes_signal s at)
    place_split stopping at = inr (_, _, stops_presence s at)
    place_split shutting_down at = inr (_, _, shuts_down s true at)
    place_split (exited code) at = inl (code, at)
    place_split panicked at = absurd (rw (at, IsOrderly) at h)

-- The exit code that the events call for: 1 for an error of the server that main takes, other than that
-- it was closed, and else 0 or 1 by whether Shutdown succeeded.
unfoldable pub verdict : List Event → Option ℕ
verdict [] = none
verdict (taken (other_error err) ∷ es) = some 1
verdict (taken no_error ∷ es) = verdict es
verdict (taken server_closed ∷ es) = verdict es
verdict (shut_down true ∷ es) = some 0
verdict (shut_down false ∷ es) = some 1
verdict (presence_started ∷ es) = verdict es
verdict (signalled ∷ es) = verdict es
verdict (stopped ∷ es) = verdict es
verdict (server_returned err ∷ es) = verdict es

-- Whether the presence loop goes on: it was started, and not stopped since.
unfoldable pub goes_on : List Event → Bool
goes_on [] = false
goes_on (presence_started ∷ es) = true
goes_on (stopped ∷ es) = false
goes_on (signalled ∷ es) = goes_on es
goes_on (taken err ∷ es) = goes_on es
goes_on (server_returned err ∷ es) = goes_on es
goes_on (shut_down fine ∷ es) = goes_on es

pub code_of : Place → Option ℕ
code_of selecting = none
code_of stopping = none
code_of shutting_down = none
code_of panicked = none
code_of (exited code) = some code

-- The presence checker is new until it starts.
record Agrees (es : List Event) (s : Process) : Type 0 where
  code : code_of s.place ≡ verdict es
  loop : s.looping ≡ goes_on es
  fresh : s.started ≡ false → (s.presence.running ≡ false) × (s.presence.done_closed ≡ false)

step-Agrees :
    {e : Event} (es : List Event) (s t : Process)
    → Step e s t
    → IsOrderly s
    → Agrees es s
    → Agrees (e ∷ es) t
unfolding verdict goes_on code_of IsOrderly start_presence start take_error is_fatal stop_presence
    after_shutdown stop is_running
step-Agrees es _ _ (presence_starts s new on) o a = record {
  code = a.code;
  loop = ground (arith, a.fresh new);
  fresh = λ e. ground arith;
}
step-Agrees es _ _ (server_returns s err new on) o a = record {
  code = a.code;
  loop = a.loop;
  fresh = a.fresh;
}
step-Agrees es _ _ (takes_error s no_error at full) o a = record {
  code = ground (arith, a.code);
  loop = a.loop;
  fresh = a.fresh;
}
step-Agrees es _ _ (takes_error s server_closed at full) o a = record {
  code = ground (arith, a.code);
  loop = a.loop;
  fresh = a.fresh;
}
step-Agrees es _ _ (takes_error s (other_error err) at full) o a = record {
  code = refl;
  loop = a.loop;
  fresh = a.fresh;
}
step-Agrees es _ _ (takes_signal s at) o a = record {
  code = ground (arith, a.code);
  loop = a.loop;
  fresh = a.fresh;
}
step-Agrees es _ _ (stops_presence s at) o a = record {
  code = ground (arith, a.code);
  loop = ground arith;
  fresh = λ e.
      let same : (stop_presence s).started ≡ s.started = ground arith in
      let new = a.fresh (sym same ∙ e) in ground arith;
}
step-Agrees es _ _ (shuts_down s true at) o a = record {
  code = refl;
  loop = a.loop;
  fresh = a.fresh;
}
step-Agrees es _ _ (shuts_down s false at) o a = record {
  code = refl;
  loop = a.loop;
  fresh = a.fresh;
}

Run-Agrees : {es : List Event} {s : Process} → Run es s → Agrees es s
unfolding verdict goes_on code_of begun
Run-Agrees at_start = record { code = refl; loop = refl; fresh = λ e. (refl, refl) }
Run-Agrees (one_more {es = es} r step) = step-Agrees es _ _ step (Run-IsOrderly r) (Run-Agrees r)

-- However the goroutines interleave, whatever the server and Shutdown return and whenever a signal
-- comes: the process does not panic, has the exit code that its events call for if and only if they call
-- for one, and its presence loop goes on exactly if it was started and not stopped since. Where it has
-- not exited it can go on, and after five of the modelled steps at most it has exited.
pub main_returns :
    {es : List Event} {s : Process}
    → Run es s
    → (s.place ≢ panicked)
      × (code_of s.place ≡ verdict es)
      × (s.looping ≡ goes_on es)
      × (length es ≤ 5)
      × (((code : ℕ) × (s.place ≡ exited code)) ⊎ ((e : Event) × (t : Process) × Step e s t))
unfolding IsOrderly
main_returns {es} {s} r =
    let orderly = Run-IsOrderly r in
    let agrees = Run-Agrees r in
    (
      λ at. rw (at, IsOrderly) at orderly,
      agrees.code,
      agrees.loop,
      omega (arith, Run-left r),
      ended_or_steps s orderly,
    )
