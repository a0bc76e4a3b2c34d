-- ===== src/Agent/RelayClient/Steps/Returning.antt =====
-- When Connect returns.
use pocketclaude.Base.{
  ℕ, GoString, Bool, false, Option, none, some, ◌≡◌, ◌≢◌, refl, sym, ◌∙◌, ◌⊎◌, inl, inr, arith,
  if_split, option_split,
}
use pocketclaude.Agent.RelayClient.{
  RelayClient, is_closed, Packet, Call, connected, message, disconnected, register_msg, Place,
  returned, waiting,
}
use pocketclaude.Agent.RelayClient.Steps.{
  System, Actor, Step, begin, finish, checks, elapsed, signalled, dial_fails, dials, keeps,
  registers, register_fails, leaves, stops, loops, lost, fetches, read_shut, read_fails,
  read_invalid, read_message, ticks, beat_done, beat_stops, sends, sends_json_rpc, sends_json,
  close_begins, close_skips, close_chooses, close_done, Reachable, here, moved, start, go, post,
  call, hold, registered, leave, check, close_locked,
}
use pocketclaude.Agent.RelayClient.Steps.Closing.{place-post}

-- Close was called in the run: it has taken the lock.
pub data HasClose {V M : Type 0} {c : RelayClient} : (s : System V M) → Reachable c s → Type 0 where
  now_called :
      {s : System V M} (r : Reachable c s) → HasClose (close_locked s) (moved r close_begins)
  called_before :
      {a : Actor} {s t : System V M} (r : Reachable c s) (step : Step a s t)
      → HasClose s r
      → HasClose t (moved r step)

-- Nobody has called Close, and Connect has not returned.
record IsOpen {V M : Type 0} (s : System V M) : Type 0 where
  pub not_closed : s.client.closed ≡ false
  pub not_done : s.client.done ≡ false
  pub none_entered : s.entered ≡ 0
  pub none_chosen : s.chosen ≡ 0
  pub stays : s.place ≢ returned

-- What a call or a write changes is none of that.
record IsLike {V M : Type 0} (s t : System V M) : Type 0 where
  pub same_closed : t.client.closed ≡ s.client.closed
  pub same_done : t.client.done ≡ s.client.done
  pub same_entered : t.entered ≡ s.entered
  pub same_chosen : t.chosen ≡ s.chosen

module _ {V M : Type 0} where
  IsLike-refl : (s : System V M) → IsLike s s
  IsLike-refl s = record {
    same_closed = refl;
    same_done = refl;
    same_entered = refl;
    same_chosen = refl;
  }

  post-IsLike : (w : Option (ℕ × Packet V)) (s : System V M) → IsLike s (post w s)
  unfolding post
  post-IsLike none s = IsLike-refl s
  post-IsLike (some w) s = record {
    same_closed = refl;
    same_done = refl;
    same_entered = refl;
    same_chosen = refl;
  }

  call-IsLike : (b : Bool) (x : Call M) (s : System V M) → IsLike s (call b x s)
  unfolding call
  call-IsLike b x s =
      if_split (λ t. IsLike s t) b
        (λ _. record {
          same_closed = refl;
          same_done = refl;
          same_entered = refl;
          same_chosen = refl;
        })
        (λ _. IsLike-refl s)

  IsLike-IsOpen : {s t : System V M} → IsOpen s → IsLike s t → t.place ≢ returned → IsOpen t
  IsLike-IsOpen h l p = record {
    not_closed = l.same_closed ∙ h.not_closed;
    not_done = l.same_done ∙ h.not_done;
    none_entered = l.same_entered ∙ h.none_entered;
    none_chosen = l.same_chosen ∙ h.none_chosen;
    stays = p;
  }

  post-IsOpen : (w : Option (ℕ × Packet V)) (s : System V M) → IsOpen s → IsOpen (post w s)
  post-IsOpen w s h = IsLike-IsOpen h (post-IsLike w s) (λ e. h.stays (sym (place-post w s) ∙ e))

  -- Connect is at another place, and has made a call or a write.
  goes :
      {s : System V M} (p : Place) (t : System V M)
      → IsOpen s
      → IsLike s t
      → p ≢ returned
      → IsOpen (go p t)
  unfolding go
  goes p t h l ne = record {
    not_closed = l.same_closed ∙ h.not_closed;
    not_done = l.same_done ∙ h.not_done;
    none_entered = l.same_entered ∙ h.none_entered;
    none_chosen = l.same_chosen ∙ h.none_chosen;
    stays = ne;
  }

  check-IsOpen : (err : Option GoString) (s : System V M) → IsOpen s → IsOpen (check err s)
  unfolding check is_closed go
  check-IsOpen err s h =
      if_split IsOpen s.client.closed (λ c. let off = h.not_closed in absurd cc)
        λ _.
          option_split IsOpen err (λ _. goes waiting s h (IsLike-refl s) (λ e. cc))
            (λ e _.
              goes waiting _ h (call-IsLike s.client.on_disconnect (disconnected e) s) (λ e. cc))

  step-IsOpen :
      {c : RelayClient} {a : Actor} {s t : System V M} (r : Reachable c s)
      → IsOpen s
      → (st : Step a s t) → HasClose t (moved r st) ⊎ IsOpen t
  unfolding hold registered leave post go
  step-IsOpen {s = s} run h (begin e o) = inr (goes _ s h (IsLike-refl s) (λ e. cc))
  step-IsOpen run h (finish e c) = let off = h.not_closed in absurd cc
  step-IsOpen {s = s} run h (checks err e) = inr (check-IsOpen err s h)
  step-IsOpen {s = s} run h (elapsed e) = inr (goes _ s h (IsLike-refl s) (λ e. cc))
  step-IsOpen run h (signalled e d) = let off = h.not_done in absurd cc
  step-IsOpen {s = s} run h (dial_fails err e) = inr (goes _ s h (IsLike-refl s) (λ e. cc))
  step-IsOpen run h (dials e) = inr (record {
    not_closed = h.not_closed;
    not_done = h.not_done;
    none_entered = h.none_entered;
    none_chosen = h.none_chosen;
    stays = λ e. cc;
  })
  step-IsOpen run h (keeps k e) = inr (record {
    not_closed = h.not_closed;
    not_done = h.not_done;
    none_entered = h.none_entered;
    none_chosen = h.none_chosen;
    stays = λ e. cc;
  })
  step-IsOpen {s = s} run h (registers k e) =
      let l =
        call-IsLike s.client.on_connect connected (post (some (k, register_msg s.client)) s) in
      inr (record {
        not_closed = l.same_closed ∙ h.not_closed;
        not_done = l.same_done ∙ h.not_done;
        none_entered = l.same_entered ∙ h.none_entered;
        none_chosen = l.same_chosen ∙ h.none_chosen;
        stays = λ e. cc;
      })
  step-IsOpen run h (register_fails k err e) = inr (record {
    not_closed = h.not_closed;
    not_done = h.not_done;
    none_entered = h.none_entered;
    none_chosen = h.none_chosen;
    stays = λ e. cc;
  })
  step-IsOpen run h (leaves err e) = inr (record {
    not_closed = h.not_closed;
    not_done = h.not_done;
    none_entered = h.none_entered;
    none_chosen = h.none_chosen;
    stays = λ e. cc;
  })
  step-IsOpen run h (stops e c) = let off = h.not_closed in absurd cc
  step-IsOpen {s = s} run h (loops e c) = inr (goes _ s h (IsLike-refl s) (λ e. cc))
  step-IsOpen {s = s} run h (lost e c) = inr (goes _ s h (IsLike-refl s) (λ e. cc))
  step-IsOpen {s = s} run h (fetches k e c) = inr (goes _ s h (IsLike-refl s) (λ e. cc))
  step-IsOpen {s = s} run h (read_shut k err e l) = inr (goes _ s h (IsLike-refl s) (λ e. cc))
  step-IsOpen {s = s} run h (read_fails k err e) = inr (goes _ s h (IsLike-refl s) (λ e. cc))
  step-IsOpen {s = s} run h (read_invalid k e) = inr (goes _ s h (IsLike-refl s) (λ e. cc))
  step-IsOpen {s = s} run h (read_message k m e) =
      inr (goes _ _ h (call-IsLike s.client.on_message (message m) s) (λ e. cc))
  step-IsOpen {s = s} run h (ticks unix r) = inr (post-IsOpen _ s h)
  step-IsOpen run h (beat_done b d) = let off = h.not_done in absurd cc
  step-IsOpen run h (beat_stops r) = inr (record {
    not_closed = h.not_closed;
    not_done = h.not_done;
    none_entered = h.none_entered;
    none_chosen = h.none_chosen;
    stays = h.stays;
  })
  step-IsOpen {s = s} run h (sends i p n) = inr (post-IsOpen _ s h)
  step-IsOpen {s = s} run h (sends_json_rpc u m p) = inr (post-IsOpen _ s h)
  step-IsOpen {s = s} run h (sends_json m) = inr (post-IsOpen _ s h)
  step-IsOpen run h close_begins = inl (now_called run)
  step-IsOpen run h (close_skips n d) = absurd (omega (arith, n, h.none_entered))
  step-IsOpen run h (close_chooses n d) = absurd (omega (arith, n, h.none_entered))
  step-IsOpen run h (close_done n) = absurd (omega (arith, n, h.none_chosen))

  Reachable-After :
      {c : RelayClient} {s : System V M}
      → c.done ≡ false
      → c.closed ≡ false
      → (r : Reachable c s) → HasClose s r ⊎ IsOpen s
  unfolding start
  Reachable-After new open_ here = inr (record {
    not_closed = open_;
    not_done = new;
    none_entered = refl;
    none_chosen = refl;
    stays = λ e. cc;
  })
  Reachable-After new open_ (moved r st) = elim (Reachable-After new open_ r) [
    | inl c ↦ inl (called_before r st c)
    | inr h ↦ step-IsOpen r h st
  ]

  -- A client starts open, with its channel open. Whatever happens, with the relay and in all
  -- goroutines: a run at whose end Connect has returned has a call of Close among its steps.
  pub returned-closed :
      {c : RelayClient} {s : System V M}
      → c.done ≡ false
      → c.closed ≡ false
      → (r : Reachable c s) → s.place ≡ returned
      → HasClose s r
  returned-closed new open_ r e = elim (Reachable-After new open_ r) [
    | inl c ↦ c
    | inr h ↦ absurd (h.stays e)
  ]
