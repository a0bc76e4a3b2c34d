-- ===== src/Agent/RelayClient/Steps/Sound.antt =====
-- Where Connect waits for a message, the connection is the client's, and shut once it is closed.
use mathlib.Core.Path.{subst}
use mathlib.Core.Option.{some-injective}
use pocketclaude.Base.{
  ℕ, GoString, true, false, Option, none, some, List, ◌∷◌, ◌≡◌, refl, sym, ◌∙◌, inl, inr,
  Bool-cases, if_split, option_split,
}
use pocketclaude.Agent.RelayClient.{RelayClient, is_closed, Packet, Place, fetching, reading}
use pocketclaude.Agent.RelayClient.Steps.{
  System, Actor, Holds, first, later, Step, begin, finish, checks, elapsed, signalled, dial_fails,
  dials, keeps, registers, register_fails, leaves, stops, loops, lost, fetches, read_shut,
  read_fails, read_invalid, read_message, ticks, beat_done, beat_stops, sends, sends_json_rpc,
  sends_json, close_begins, close_skips, close_chooses, close_done, go, post, call, hold,
  registered, leave, check, close_locked,
}

-- What a place says of the client and of the connections that were shut.
unfoldable pub Fits : RelayClient → List ℕ → Place → Type 0
Fits c shut fetching = c.closed ≡ true → c.conn ≡ none
Fits c shut (reading k) = (c.closed ≡ true → Holds k shut) × (c.closed ≡ false → c.conn ≡ some k)
Fits c shut _ = Unit

shut-Fits :
    (c : RelayClient) (k : ℕ) (shut : List ℕ) (p : Place)
    → c.conn ≡ some k
    → Fits c shut p
    → Fits (record c { conn = none; closed = true }) (k ∷ shut) p
unfolding Fits
shut-Fits c k shut fetching e h = λ _. refl
shut-Fits c k shut (reading j) e h =
    let held : Holds j (k ∷ shut) = elim (Bool-cases c.closed) [
      | inl t ↦ later (h.0 t)
      | inr f ↦ subst (λ i. Holds i (k ∷ shut)) (some-injective _ _ (sym e ∙ h.1 f)) first
    ] in
    (λ _. held, λ f. cc)
shut-Fits c k shut _ e h = tt

none-Fits :
    (c : RelayClient) (shut : List ℕ) (p : Place)
    → c.conn ≡ none
    → Fits c shut p
    → Fits (record c { closed = true }) shut p
unfolding Fits
none-Fits c shut fetching e h = λ _. e
none-Fits c shut (reading j) e h =
    let held : Holds j shut = elim (Bool-cases c.closed) [
      | inl t ↦ h.0 t
      | inr f ↦ let some_held = h.1 f in cc
    ] in
    (λ _. held, λ f. cc)
none-Fits c shut _ e h = tt

done-Fits :
    (c : RelayClient) (shut : List ℕ) (p : Place)
    → Fits c shut p
    → Fits (record c { done = true }) shut p
unfolding Fits
done-Fits c shut fetching h = h
done-Fits c shut (reading j) h = h
done-Fits c shut _ h = tt

unfoldable pub IsSound : {V M : Type 0} → System V M → Type 0
IsSound s = Fits s.client s.shut s.place

module _ {V M : Type 0} where
  post-IsSound : (w : Option (ℕ × Packet V)) (s : System V M) → IsSound s → IsSound (post w s)
  unfolding IsSound post
  post-IsSound none s h = h
  post-IsSound (some w) s h = h

  check-IsSound : (err : Option GoString) (s : System V M) → IsSound (check err s)
  unfolding IsSound check go call is_closed Fits
  check-IsSound err s =
      if_split IsSound s.client.closed (λ _. tt) λ _. option_split IsSound err (λ _. tt) (λ e _. tt)

  close_locked-IsSound : (s : System V M) → IsSound s → IsSound (close_locked s)
  unfolding IsSound close_locked post hold
  close_locked-IsSound s h =
      option_split IsSound s.client.conn (λ e. none-Fits s.client s.shut s.place e h)
        (λ k e. shut-Fits s.client k s.shut s.place e h)

  pub step-IsSound : {a : Actor} {s t : System V M} → IsSound s → Step a s t → IsSound t
  unfolding IsSound go Fits hold registered call leave
  step-IsSound h (begin e o) = tt
  step-IsSound h (finish e o) = tt
  step-IsSound h (checks err e) = check-IsSound err _
  step-IsSound h (elapsed e) = tt
  step-IsSound h (signalled e d) = tt
  step-IsSound h (dial_fails err e) = tt
  step-IsSound h (dials e) = tt
  step-IsSound h (keeps k e) = tt
  step-IsSound h (registers k e) = tt
  step-IsSound h (register_fails k err e) = tt
  step-IsSound h (leaves err e) = tt
  step-IsSound h (stops e c) = tt
  step-IsSound h (loops e c) = λ d. cc
  step-IsSound h (lost e c) = tt
  step-IsSound {s = s} h (fetches k e c) =
      let gone : s.client.closed ≡ true → s.client.conn ≡ none = subst (Fits s.client s.shut) e h in
      (λ t. let none_held = gone t in cc, λ _. c)
  step-IsSound h (read_shut k err e l) = tt
  step-IsSound h (read_fails k err e) = tt
  step-IsSound h (read_invalid k e) = tt
  step-IsSound h (read_message k m e) = tt
  step-IsSound h (ticks unix r) = post-IsSound _ _ h
  step-IsSound h (beat_done b d) = h
  step-IsSound h (beat_stops r) = h
  step-IsSound h (sends i p n) = post-IsSound _ _ h
  step-IsSound h (sends_json_rpc u m p) = post-IsSound _ _ h
  step-IsSound h (sends_json m) = post-IsSound _ _ h
  step-IsSound {s = s} h close_begins = close_locked-IsSound s h
  step-IsSound h (close_skips n d) = h
  step-IsSound h (close_chooses n d) = h
  step-IsSound {s = s} h (close_done n) = done-Fits s.client s.shut s.place h
