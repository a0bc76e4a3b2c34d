-- ===== src/Agent/RelayClient/Steps/Closing.antt =====
-- What Close does to a goroutine in Connect, wherever it is.
use mathlib.Core.Path.{subst}
use pocketclaude.Base.{
  ℕ, ◌+◌, ◌≤◌, Bool, true, Option, none, some, ◌≡◌, refl, sym, ap, ◌∙◌, ◌⊎◌, inl, inr, arith,
  if_split, option_split,
}
use pocketclaude.Agent.RelayClient.Steps.Sound.{Fits, IsSound, step-IsSound}
use pocketclaude.Agent.RelayClient.{
  RelayClient, is_closed, Packet, Call, connected, message, Place, starting, dialing, looping,
  fetching, waiting, returned, dialed, registering, reading, leaving, checking,
}
use pocketclaude.Agent.RelayClient.Steps.{
  System, Actor, connect, peer, others, Step, begin, finish, checks, elapsed, signalled, dial_fails,
  dials, keeps, registers, register_fails, leaves, stops, loops, lost, fetches, read_shut,
  read_fails, read_invalid, read_message, ticks, beat_done, beat_stops, sends, sends_json_rpc,
  sends_json, close_begins, close_skips, close_chooses, close_done, Reachable, here, moved, start,
  go, post, call, hold, registered, leave, check, close_locked,
}

-- How many steps a closed client's Connect has left at most.
unfoldable pub rank : Place → ℕ
rank starting = 1
rank dialing = 6
rank looping = 3
rank fetching = 5
rank waiting = 2
rank returned = 0
rank (dialed k) = 5
rank (registering k) = 4
rank (reading k) = 4
rank (leaving err) = 2
rank (checking err) = 1

rank_bound : (p : Place) → rank p ≤ 6
unfolding rank
rank_bound p = grind arith

-- Whether the step is one of Connect's.
unfoldable pub cost : Actor → ℕ
cost connect = 1
cost peer = 1
cost others = 0

-- Some steps, of which `n` are Connect's.
pub data Run {V M : Type 0} : ℕ → System V M → System V M → Type 0 where
  stay : {s : System V M} → Run 0 s s
  step : {a : Actor} {n : ℕ} {s t u : System V M} → Step a s t → Run n t u → Run (cost a + n) s u

module _ {V M : Type 0} where
  client-post : (w : Option (ℕ × Packet V)) (s : System V M) → (post w s).client ≡ s.client
  unfolding post
  client-post none s = refl
  client-post (some w) s = refl

  pub place-post : (w : Option (ℕ × Packet V)) (s : System V M) → (post w s).place ≡ s.place
  unfolding post
  place-post none s = refl
  place-post (some w) s = refl

  client-call : (b : Bool) (c : Call M) (s : System V M) → (call b c s).client ≡ s.client
  unfolding call
  client-call b c s = if_split (λ (t : System V M). t.client ≡ s.client) b (λ _. refl) (λ _. refl)

  -- A closed client stays closed, and Connect's steps bring it nearer to its return.
  pub record IsNearer (a : Actor) (s t : System V M) : Type 0 where
    pub stays : t.client.closed ≡ true
    pub decrease : cost a + rank t.place ≤ rank s.place

  nearer :
      {a : Actor} {s t : System V M} {p : Place}
      → s.place ≡ p
      → t.client.closed ≡ true
      → cost a + rank t.place ≤ rank p
      → IsNearer a s t
  nearer {a} {t = t} e c r = record {
    stays = c;
    decrease = subst (λ p. cost a + rank t.place ≤ rank p) (sym e) r;
  }

  post-IsNearer :
      (w : Option (ℕ × Packet V)) (s : System V M)
      → s.client.closed ≡ true
      → IsNearer others s (post w s)
  unfolding cost
  post-IsNearer w s c = record {
    stays = ap (λ (d : RelayClient). d.closed) (client-post w s) ∙ c;
    decrease = rw (place-post w s) (omega arith);
  }

  pub step-IsNearer :
      {a : Actor} {s t : System V M} → s.client.closed ≡ true → Step a s t → IsNearer a s t
  unfolding cost rank go hold leave registered is_closed check close_locked post
  step-IsNearer c (begin e o) = absurd cc
  step-IsNearer c (finish e o) = nearer e c (omega arith)
  step-IsNearer {s = s} c (checks err e) =
      if_split (λ t. IsNearer connect s t) s.client.closed (λ _. nearer e c (omega arith))
        (λ f. absurd cc)
  step-IsNearer c (elapsed e) = nearer e c (omega arith)
  step-IsNearer c (signalled e d) = nearer e c (omega arith)
  step-IsNearer c (dial_fails err e) = nearer e c (omega arith)
  step-IsNearer c (dials e) = nearer e c (omega arith)
  step-IsNearer c (keeps k e) = nearer e c (omega arith)
  step-IsNearer {s = s} c (registers k e) =
      nearer e
        (ap (λ (d : RelayClient). d.closed) (client-call s.client.on_connect connected _) ∙ c)
        (omega arith)
  step-IsNearer c (register_fails k err e) = nearer e c (omega arith)
  step-IsNearer c (leaves err e) = nearer e c (omega arith)
  step-IsNearer c (stops e _) = nearer e c (omega arith)
  step-IsNearer c (loops e o) = absurd cc
  step-IsNearer c (lost e _) = nearer e c (omega arith)
  step-IsNearer c (fetches k e _) = nearer e c (omega arith)
  step-IsNearer c (read_shut k err e l) = nearer e c (omega arith)
  step-IsNearer c (read_fails k err e) = nearer e c (omega arith)
  step-IsNearer c (read_invalid k e) = nearer e c (omega arith)
  step-IsNearer {s = s} c (read_message k m e) =
      nearer e
        (ap (λ (d : RelayClient). d.closed) (client-call s.client.on_message (message m) s) ∙ c)
        (omega arith)
  step-IsNearer {s = s} c (ticks unix r) = post-IsNearer _ s c
  step-IsNearer c (beat_done b d) = record { stays = c; decrease = omega arith }
  step-IsNearer c (beat_stops r) = record { stays = c; decrease = omega arith }
  step-IsNearer {s = s} c (sends i p n) = post-IsNearer _ s c
  step-IsNearer {s = s} c (sends_json_rpc u m p) = post-IsNearer _ s c
  step-IsNearer {s = s} c (sends_json m) = post-IsNearer _ s c
  step-IsNearer {s = s} c close_begins =
      option_split (λ t. IsNearer others s t) s.client.conn
        (λ _. record { stays = refl; decrease = omega arith })
        (λ k _. record { stays = refl; decrease = omega arith })
  step-IsNearer c (close_skips n d) = record { stays = c; decrease = omega arith }
  step-IsNearer c (close_chooses n d) = record { stays = c; decrease = omega arith }
  step-IsNearer c (close_done n) = record { stays = c; decrease = omega arith }

  -- A closed client that has not returned can go on by itself.
  CanGo : System V M → Type 0
  CanGo s = (s.place ≡ returned) ⊎ ((t : System V M) × Step connect s t)

  can_go :
      (s : System V M) (p : Place)
      → s.client.closed ≡ true
      → s.place ≡ p
      → Fits s.client s.shut p
      → CanGo s
  unfolding CanGo Fits
  can_go s starting c e h = inr (_, finish e c)
  can_go s dialing c e h = inr (_, dials e)
  can_go s looping c e h = inr (_, stops e c)
  can_go s fetching c e h = inr (_, lost e (h c))
  can_go s waiting c e h = inr (_, elapsed e)
  can_go s returned c e h = inl e
  can_go s (dialed k) c e h = inr (_, keeps k e)
  can_go s (registering k) c e h = inr (_, registers k e)
  can_go s (reading k) c e h = inr (_, read_shut k none e (h.0 c))
  can_go s (leaving err) c e h = inr (_, leaves err e)
  can_go s (checking err) c e h = inr (_, checks err e)

  Reachable-IsSound : {c : RelayClient} {s : System V M} → Reachable c s → IsSound s
  unfolding IsSound start Fits
  Reachable-IsSound here = tt
  Reachable-IsSound (moved r st) = step-IsSound (Reachable-IsSound r) st

  -- What a run does to a closed client.
  record IsEnding (n : ℕ) (s t : System V M) : Type 0 where
    pub spent : n + rank t.place ≤ rank s.place
    pub goes_on : CanGo t

  Run-IsEnding :
      {n : ℕ} {s t : System V M} → IsSound s → s.client.closed ≡ true → Run n s t → IsEnding n s t
  unfolding Fits IsSound
  Run-IsEnding {s = s} h c stay = record {
    spent = omega arith;
    goes_on = can_go s s.place c refl h;
  }
  Run-IsEnding h c (step st r) =
      let near = step-IsNearer c st in
      let ending = Run-IsEnding (step-IsSound h st) near.stays r in
      record {
        spent = (let d = near.decrease in let e = ending.spent in omega arith);
        goes_on = ending.goes_on;
      }

  -- A client that can be in state `s` is closed there, and any steps of all goroutines bring it to
  -- `t`: Connect has made at most six of them, and in `t` it has returned, or it can make another
  -- step without a message or an error from the relay.
  pub connect_returns :
      {n : ℕ} {c : RelayClient} {s t : System V M}
      → Reachable c s
      → s.client.closed ≡ true
      → Run n s t
      → (n ≤ 6) × ((t.place ≡ returned) ⊎ ((u : System V M) × Step connect t u))
  unfolding CanGo
  connect_returns {s = s} reached closed run =
      let ending = Run-IsEnding (Reachable-IsSound reached) closed run in
      (let e = ending.spent in let b = rank_bound s.place in omega arith, ending.goes_on)
