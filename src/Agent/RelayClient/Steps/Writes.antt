-- ===== src/Agent/RelayClient/Steps/Writes.antt =====
-- What the client writes.
use mathlib.Core.Path.{subst}
use pocketclaude.Base.{
  ℕ, GoString, text, Bool, Option, none, some, List, [], ◌∷◌, ◌++◌, ◌≡◌, refl, sym, ◌⊎◌, inl, inr,
  All, if_split, option_split,
}
use pocketclaude.Agent.RelayClient.{
  RelayClient, Call, connected, message, disconnected, is_closed, Envelope, Packet, envelope,
  any_json, close_message, register_msg, send_json, send, send_json_rpc, beat,
}
use pocketclaude.Agent.RelayClient.Steps.{
  System, Actor, Holds, first, later, Step, begin, finish, checks, elapsed, signalled, dial_fails,
  dials, keeps, registers, register_fails, leaves, stops, loops, lost, fetches, read_shut,
  read_fails, read_invalid, read_message, ticks, beat_done, beat_stops, sends, sends_json_rpc,
  sends_json, close_begins, close_skips, close_chooses, close_done, Reachable, here, moved, start,
  go, post, call, hold, registered, leave, check, close_locked,
}

-- Either with an identifier, which is a string, or a message.send.
abbrev pub IsFromClient : {V : Type 0} → Envelope V → Type 0
IsFromClient m =
    ((i : GoString) × (m.id ≡ some i)) ⊎ ((m.id ≡ none) × (m.method ≡ text "message.send"))

unfoldable pub IsClientPacket : {V : Type 0} → Packet V → Type 0
IsClientPacket (envelope m) = IsFromClient m
IsClientPacket (any_json v) = Unit
IsClientPacket close_message = Unit

snoc-All :
    {A : Type 0} (P : A → Type 0) (xs : List A) {x : A} → All P xs → P x → All P (xs ++ x ∷ [])
snoc-All P [] h p = (p, tt)
snoc-All P (y ∷ ys) h p = (h.0, snoc-All P ys h.1 p)

pub All-Holds : {A : Type 0} (P : A → Type 0) {x : A} {xs : List A} → All P xs → Holds x xs → P x
All-Holds P h first = h.0
All-Holds P h (later l) = All-Holds P h.1 l

-- What a call writes, if anything.
unfoldable Offers : {V : Type 0} → Option (ℕ × Packet V) → Type 0
Offers none = Unit
Offers (some w) = IsClientPacket w.1

send_json-Offers :
    {V : Type 0} (c : RelayClient) (p : Packet V) → IsClientPacket p → Offers (send_json c p)
unfolding send_json Offers
send_json-Offers c p h = option_split Offers c.conn (λ _. tt) (λ k _. h)

unfoldable pub OwnWrites : {V M : Type 0} → System V M → Type 0
OwnWrites s = All (λ w. IsClientPacket w.1) s.writes

module _ {V M : Type 0} where
  post-Own :
      (o : Option (ℕ × Packet V)) (s : System V M) → Offers o → OwnWrites s → OwnWrites (post o s)
  unfolding post Offers OwnWrites
  post-Own none s f h = h
  post-Own (some w) s f h = snoc-All (λ w. IsClientPacket w.1) s.writes h f

  writes-call : (b : Bool) (x : Call M) (s : System V M) → (call b x s).writes ≡ s.writes
  unfolding call
  writes-call b x s = if_split (λ (t : System V M). t.writes ≡ s.writes) b (λ _. refl) (λ _. refl)

  call-Own : (b : Bool) (x : Call M) (s : System V M) → OwnWrites s → OwnWrites (call b x s)
  unfolding OwnWrites
  call-Own b x s h = subst (All (λ w. IsClientPacket w.1)) (sym (writes-call b x s)) h

  check-Own : (err : Option GoString) (s : System V M) → OwnWrites s → OwnWrites (check err s)
  unfolding check go is_closed OwnWrites
  check-Own err s h =
      if_split OwnWrites s.client.closed (λ _. h)
        λ _.
          option_split OwnWrites err (λ _. h)
            (λ e _. call-Own s.client.on_disconnect (disconnected e) s h)

  close_locked-Own : (s : System V M) → OwnWrites s → OwnWrites (close_locked s)
  unfolding close_locked hold OwnWrites IsClientPacket post
  close_locked-Own s h =
      option_split OwnWrites s.client.conn (λ _. h)
        (λ k _. snoc-All (λ w. IsClientPacket w.1) s.writes h tt)

  step-Own : {a : Actor} {s t : System V M} → OwnWrites s → Step a s t → OwnWrites t
  unfolding OwnWrites go hold registered leave IsClientPacket send send_json_rpc beat register_msg
      Offers post
  step-Own h (begin e o) = h
  step-Own h (finish e o) = h
  step-Own {s = s} h (checks err e) = check-Own err s h
  step-Own h (elapsed e) = h
  step-Own h (signalled e d) = h
  step-Own h (dial_fails err e) = h
  step-Own h (dials e) = h
  step-Own h (keeps k e) = h
  step-Own {s = s} h (registers k e) =
      call-Own s.client.on_connect connected (post (some (k, register_msg s.client)) s)
        (post-Own (some (k, register_msg s.client)) s (inl (_, refl)) h)
  step-Own {s = s} h (register_fails k err e) =
      post-Own (some (k, register_msg s.client)) s (inl (_, refl)) h
  step-Own h (leaves err e) = h
  step-Own h (stops e c) = h
  step-Own h (loops e c) = h
  step-Own h (lost e c) = h
  step-Own h (fetches k e c) = h
  step-Own h (read_shut k err e l) = h
  step-Own h (read_fails k err e) = h
  step-Own h (read_invalid k e) = h
  step-Own {s = s} h (read_message k m e) = call-Own s.client.on_message (message m) s h
  step-Own {s = s} h (ticks unix r) = post-Own _ s (send_json-Offers s.client _ (inl (_, refl))) h
  step-Own h (beat_done b d) = h
  step-Own h (beat_stops r) = h
  step-Own {s = s} h (sends i p n) = post-Own _ s (send_json-Offers s.client _ (inr (refl, refl))) h
  step-Own {s = s} h (sends_json_rpc u m p) =
      post-Own _ s (send_json-Offers s.client _ (inl (_, refl))) h
  step-Own {s = s} h (sends_json m) = post-Own _ s (send_json-Offers s.client _ tt) h
  step-Own {s = s} h close_begins = close_locked-Own s h
  step-Own h (close_skips n d) = h
  step-Own h (close_chooses n d) = h
  step-Own h (close_done n) = h

  pub Reachable-Own : {c : RelayClient} {s : System V M} → Reachable c s → OwnWrites s
  unfolding OwnWrites start
  Reachable-Own here = tt
  Reachable-Own (moved r st) = step-Own (Reachable-Own r) st
