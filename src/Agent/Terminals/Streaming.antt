-- ===== src/Agent/Terminals/Streaming.antt =====
-- What the handler of the output sees.
use pocketclaude.Base.{
  ℕ, zero, suc, if_split, ◌≢◌, GoString, str_eq, str_eq_iff, ◌≡◌, refl, ap, sym, ◌∙◌, true, false,
  not, ◌&&◌, List, [], ◌∷◌, ◌++◌, append-nil, append_assoc, arith, if◌then◌else◌, ltb, length, take,
  drop,
}
use pocketclaude.Agent.Terminals.Output.{
  Sink, capacity, deliver, Read, read_output, Tick, gone, failed, captured, pane_diff, poll_tick,
  poll_tmux,
}

-- The chunks, one after the other.
unfoldable pub joined : List GoString → GoString
joined [] = []
joined (x ∷ xs) = x ++ joined xs

joined-append : (xs : List GoString) (x : GoString) → joined (xs ++ x ∷ []) ≡ joined xs ++ x
unfolding joined
joined-append [] x = append-nil x
joined-append (y ∷ xs) x =
    ap (λ l. y ++ l) (joined-append xs x) ∙ sym (append_assoc y (joined xs) x)

take-snoc :
    (n : ℕ) (xs : List GoString) (x : GoString)
    → take n (xs ++ x ∷ [])
      ≡ (if ltb (length (take n xs)) n then take n xs ++ x ∷ [] else take n xs)
take-snoc zero xs x = ground arith
take-snoc (suc zero) [] x = ground arith
take-snoc (suc (suc n)) [] x = ground arith
take-snoc (suc n) (y ∷ xs) x = ground (arith, take-snoc n xs x)

-- The bytes of all reads up to the first that fails, that one included.
unfoldable pub all_read : List Read → GoString
all_read [] = []
all_read ((chunk, true) ∷ reads) = chunk
all_read ((chunk, false) ∷ reads) = chunk ++ all_read reads

take-drop : (n : ℕ) (l : GoString) → take n l ++ drop n l ≡ l
take-drop zero l = refl
take-drop (suc n) [] = refl
take-drop (suc n) (x ∷ l) = ap (λ t. x ∷ t) (take-drop n l)

-- `s` ends with `l`.
abbrev pub Ends : GoString → GoString → Type 0
Ends l s = (p : GoString) × (s ≡ p ++ l)

-- The difference, put after the old pane, ends with the new one.
append-pane_diff-Ends :
    (p last current : GoString) → Ends current (p ++ last ++ pane_diff last current)
unfolding pane_diff
append-pane_diff-Ends p last current =
    if_split (λ d. Ends current (p ++ last ++ d)) _
      (λ h. (p, append_assoc p last _ ∙ ap (λ l. p ++ l) (extended h))) (λ _. (p ++ last, refl))
  where
    extended :
        (not (str_eq last [])
            && ltb (length last) (length current)
            && str_eq (take (length last) current) last)
          ≡ true
        → last ++ drop (length last) current ≡ current
    extended h =
        ap (λ l. l ++ drop (length last) current)
          (sym (ground (arith, h, str_eq_iff (take (length last) current) last)))
        ∙ take-drop (length last) current

poll_tick-Ends :
    (last current : GoString) (s : Sink)
    → Ends last (joined s.handled)
    → Ends current (joined (poll_tick true last current s).handled)
unfolding poll_tick deliver
poll_tick-Ends last current s (p, e) =
    if_split (λ (t : Sink). Ends current (joined t.handled)) (str_eq current last)
      (λ same. (p, e ∙ ap (λ l. p ++ l) (sym ((str_eq_iff current last).0 same))))
      (λ _.
        if_split (λ (t : Sink). Ends current (joined t.handled))
          (str_eq (pane_diff last current) []) (λ nothing. (new.0, unsent nothing ∙ new.1))
          (λ _. (new.0, sent ∙ new.1)))
  where
    new : Ends current (p ++ last ++ pane_diff last current)
    new = append-pane_diff-Ends p last current

    sent : joined (s.handled ++ pane_diff last current ∷ []) ≡ p ++ last ++ pane_diff last current
    sent =
        joined-append s.handled (pane_diff last current) ∙ ap (λ l. l ++ pane_diff last current) e

    unsent :
        str_eq (pane_diff last current) [] ≡ true
        → joined s.handled ≡ p ++ last ++ pane_diff last current
    unsent nothing =
        rw ((str_eq_iff (pane_diff last current) []).0 nothing, append-nil (p ++ last)) e

-- The pane as the ticks captured it last, before the first at which the session is gone; `pane` if they
-- never did.
unfoldable pub last_captured : GoString → List Tick → GoString
last_captured pane [] = pane
last_captured pane (gone ∷ ticks) = pane
last_captured pane (failed ∷ ticks) = last_captured pane ticks
last_captured pane (captured current ∷ ticks) = last_captured current ticks

poll_tmux-Ends-from :
    (ticks : List Tick) (last : GoString) (s : Sink)
    → Ends last (joined s.handled)
    → Ends (last_captured last ticks) (joined (poll_tmux true ticks last s).1.handled)
unfolding poll_tmux last_captured
poll_tmux-Ends-from [] last s h = h
poll_tmux-Ends-from (gone ∷ ticks) last s h = h
poll_tmux-Ends-from (failed ∷ ticks) last s h = poll_tmux-Ends-from ticks last s h
poll_tmux-Ends-from (captured current ∷ ticks) last s h =
    poll_tmux-Ends-from ticks current (poll_tick true last current s)
      (poll_tick-Ends last current s h)

-- However the pane of a session changes, and whatever captures fail, what the handler has been
-- given, joined, ends with the pane that the last successful capture returned before the session was
-- gone.
pub poll_tmux-Ends :
    (ticks : List Tick)
    → Ends
        (last_captured [] ticks)
        (joined (poll_tmux true ticks [] (record { channel = []; handled = [] })).1.handled)
poll_tmux-Ends ticks =
    poll_tmux-Ends-from ticks [] (record { channel = []; handled = [] }) ([], unfold joined in refl)

read_one :
    (chunk : GoString) (s : Sink)
    → s.channel ≡ take capacity s.handled
    → let t = if ltb 0 (length chunk) then deliver true chunk s else s in
      (joined t.handled ≡ joined s.handled ++ chunk) × (t.channel ≡ take capacity t.handled)
unfolding deliver
read_one [] s h = (sym (append-nil (joined s.handled)), h)
read_one (x ∷ chunk) s h =
    if_split
      (λ (t : Sink).
        (joined t.handled ≡ joined s.handled ++ x ∷ chunk) × (t.channel ≡ take capacity t.handled))
      (ltb 0 (length (x ∷ chunk))) (λ _. (joined-append s.handled (x ∷ chunk), kept))
      (λ empty. absurd (not_empty empty))
  where
    kept : (deliver true (x ∷ chunk) s).channel ≡ take capacity (s.handled ++ (x ∷ chunk) ∷ [])
    kept =
        ap (λ c. if ltb (length c) capacity then c ++ (x ∷ chunk) ∷ [] else c) h
        ∙ sym (take-snoc capacity s.handled (x ∷ chunk))

    not_empty : ltb 0 (length (x ∷ chunk)) ≢ false
    not_empty = ground arith

read_output-from :
    (reads : List Read) (s : Sink)
    → s.channel ≡ take capacity s.handled
    → let t = read_output true reads s in
      (joined t.handled ≡ joined s.handled ++ all_read reads)
      × (t.channel ≡ take capacity t.handled)
unfolding read_output all_read
read_output-from [] s h = (sym (append-nil (joined s.handled)), h)
read_output-from ((chunk, true) ∷ reads) s h = read_one chunk s h
read_output-from ((chunk, false) ∷ reads) s h =
    let (handled, channel) = read_one chunk s h in
    let (handled', channel') =
      read_output-from reads (if ltb 0 (length chunk) then deliver true chunk s else s) channel in
    (
      handled'
          ∙ ap (λ l. l ++ all_read reads) handled
          ∙ append_assoc (joined s.handled) chunk (all_read reads),
      channel',
    )

-- The handler of a terminal without tmux is given the bytes of every read, in order, up to the first
-- that fails, that one's included; the channel Output holds the first 1024 chunks and no more.
pub read_output_lem :
    (reads : List Read)
    → let t = read_output true reads (record { channel = []; handled = [] }) in
      (joined t.handled ≡ all_read reads) × (t.channel ≡ take capacity t.handled)
unfolding joined
read_output_lem reads = read_output-from reads (record { channel = []; handled = [] }) refl
