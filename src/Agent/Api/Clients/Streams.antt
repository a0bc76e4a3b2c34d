-- ===== src/Agent/Api/Clients/Streams.antt =====
-- What one client gets of the notifications.
use pocketclaude.Base.{
  ℕ, suc, ◌≡◌, refl, ap, sym, ◌∙◌, Bool, true, false, not, ◌&&◌, List, [], ◌∷◌, ◌++◌, if◌then◌else◌,
  ◌==◌, ==_iff, arith, append-nil, append_assoc, if_split, Bool-cases, inl, inr,
}
use pocketclaude.Agent.Api.Clients.{Conn, Hub, remove, broadcast_to_all, broadcast_loop}

unfoldable pub is_client : Conn → List Conn → Bool
is_client c [] = false
is_client c (d ∷ ds) = if d == c then true else is_client c ds

-- No connection stands twice, as in every map.
abbrev pub Distinct : List Conn → Type 0
Distinct [] = Unit
Distinct (c ∷ cs) = (is_client c cs ≡ false) × Distinct cs

is_client-remove :
    (c d : Conn) (cs : List Conn) → is_client c (remove d cs) ≡ (is_client c cs && not (d == c))
unfolding is_client
is_client-remove c d [] = refl
is_client-remove c d (e ∷ cs) = ground (arith, is_client-remove c d cs)

remove-Distinct : (d : Conn) (cs : List Conn) → Distinct cs → Distinct (remove d cs)
remove-Distinct d [] h = tt
remove-Distinct d (e ∷ cs) h =
    ground (arith, remove-Distinct d cs h.1, is_client-remove e d cs, h.0)

module _ {W : Type 0} where
  -- What was written to a connection.
  unfoldable pub sent_to : Conn → List (Conn × W) → List W
  sent_to c [] = []
  sent_to c ((d, msg) ∷ ws) = if d == c then msg ∷ sent_to c ws else sent_to c ws

  -- The messages up to and with the first whose write fails.
  unfoldable pub until_failure : (ℕ → Bool) → ℕ → List W → List W
  until_failure fine k [] = []
  until_failure fine k (msg ∷ msgs) =
      let rest = until_failure fine (suc k) msgs in if fine k then msg ∷ rest else msg ∷ []

  -- No write of the messages fails.
  unfoldable pub all_fine : (ℕ → Bool) → ℕ → List W → Bool
  all_fine fine k [] = true
  all_fine fine k (msg ∷ msgs) = let rest = all_fine fine (suc k) msgs in fine k && rest

  sent_to-append :
      (c : Conn) (ws vs : List (Conn × W)) → sent_to c (ws ++ vs) ≡ sent_to c ws ++ sent_to c vs
  unfolding sent_to
  sent_to-append c [] vs = refl
  sent_to-append c ((d, msg) ∷ ws) vs = ground (arith, sent_to-append c ws vs)

  -- The hub after the write for one client.
  abbrev visited : (Conn → Bool) → W → Conn → Hub W → Hub W
  visited delivers msg d h =
      let written = record h { writes = h.writes ++ (d, msg) ∷ [] } in
      if delivers d
      then written
      else record written { clients = remove d h.clients; closed = h.closed ++ d ∷ [] }

  sent_to-visited :
      (delivers : Conn → Bool) (msg : W) (d : Conn) (h : Hub W) (c : Conn)
      → sent_to c (visited delivers msg d h).writes
        ≡ sent_to c h.writes ++ (if d == c then msg ∷ [] else [])
  sent_to-visited delivers msg d h c =
      if_split
        (λ (r : Hub W).
          sent_to c r.writes ≡ sent_to c h.writes ++ (if d == c then msg ∷ [] else []))
        (delivers d) (λ _. once) (λ _. once)
    where
      once :
          sent_to c (h.writes ++ (d, msg) ∷ [])
          ≡ sent_to c h.writes ++ (if d == c then msg ∷ [] else [])
      once = sent_to-append c h.writes ((d, msg) ∷ []) ∙ unfold sent_to in refl

  is_client-visited :
      (delivers : Conn → Bool) (msg : W) (d : Conn) (h : Hub W) (c : Conn)
      → is_client c (visited delivers msg d h).clients
        ≡ (is_client c h.clients && (if d == c then delivers c else true))
  is_client-visited delivers msg d h c = elim (Bool-cases (d == c)) [
    | inl same ↦ rw ((==_iff d c).0 same) (
        if_split
          (λ (r : Hub W).
            is_client c r.clients
            ≡ (is_client c h.clients && (if c == c then delivers c else true)))
          (delivers c) (λ e. ground (arith, e))
          (λ e. is_client-remove c c h.clients ∙ ground (arith, e)))
    | inr differs ↦
        if_split
          (λ (r : Hub W).
            is_client c r.clients
            ≡ (is_client c h.clients && (if d == c then delivers c else true)))
          (delivers d) (λ e. ground (arith, differs))
          (λ e. is_client-remove c d h.clients ∙ ground (arith, differs))
  ]

  visited-Distinct :
      (delivers : Conn → Bool) (msg : W) (d : Conn) (h : Hub W)
      → Distinct h.clients
      → Distinct (visited delivers msg d h).clients
  visited-Distinct delivers msg d h ok =
      if_split (λ (r : Hub W). Distinct r.clients) (delivers d) (λ _. ok)
        (λ _. remove-Distinct d h.clients ok)

  sent_to-broadcast_to_all :
      (delivers : Conn → Bool) (msg : W) (cs : List Conn) (h : Hub W) (c : Conn)
      → Distinct cs
      → sent_to c (broadcast_to_all delivers msg cs h).writes
        ≡ sent_to c h.writes ++ (if is_client c cs then msg ∷ [] else [])
  unfolding broadcast_to_all is_client
  sent_to-broadcast_to_all delivers msg [] h c ok = sym (append-nil (sent_to c h.writes))
  sent_to-broadcast_to_all delivers msg (d ∷ cs) h c ok =
      sent_to-broadcast_to_all delivers msg cs (visited delivers msg d h) c ok.1
      ∙ ap (λ l. l ++ (if is_client c cs then msg ∷ [] else []))
          (sent_to-visited delivers msg d h c)
      ∙ elim (Bool-cases (d == c)) [
        | inl same ↦ rw (same, rw ((==_iff d c).0 same) at ok.0) (append-nil _)
        | inr differs ↦
            rw (differs) (ap (λ l. l ++ (if is_client c cs then msg ∷ [] else [])) (append-nil _))
      ]

  is_client-broadcast_to_all :
      (delivers : Conn → Bool) (msg : W) (cs : List Conn) (h : Hub W) (c : Conn)
      → is_client c (broadcast_to_all delivers msg cs h).clients
        ≡ (is_client c h.clients && (if is_client c cs then delivers c else true))
  unfolding broadcast_to_all is_client
  is_client-broadcast_to_all delivers msg [] h c = ground arith
  is_client-broadcast_to_all delivers msg (d ∷ cs) h c =
      is_client-broadcast_to_all delivers msg cs (visited delivers msg d h) c
      ∙ ground (arith, is_client-visited delivers msg d h c)

  broadcast_to_all-Distinct :
      (delivers : Conn → Bool) (msg : W) (cs : List Conn) (h : Hub W)
      → Distinct h.clients
      → Distinct (broadcast_to_all delivers msg cs h).clients
  unfolding broadcast_to_all
  broadcast_to_all-Distinct delivers msg [] h ok = ok
  broadcast_to_all-Distinct delivers msg (d ∷ cs) h ok =
      broadcast_to_all-Distinct delivers msg cs (visited delivers msg d h)
        (visited-Distinct delivers msg d h ok)

  one_more :
      (b d : Bool) (msg : W) (before rest : List W)
      → (before ++ (if b then msg ∷ [] else []))
          ++ (if b && (if b then d else true) then rest else [])
        ≡ before ++ (if b then (if d then msg ∷ rest else msg ∷ []) else [])
  one_more true true msg before rest = append_assoc before (msg ∷ []) rest
  one_more true false msg before rest = append-nil (before ++ msg ∷ [])
  one_more false d msg before rest = append-nil (before ++ [])

  -- To each connection the loop behaves as if it were the only client: one that is a client gets the
  -- notifications in their order, up to and with the first whose write fails; it stays a client
  -- exactly if none fails. One that is no client gets nothing.
  pub broadcast_loop_lem :
      (delivers : ℕ → Conn → Bool) (k : ℕ) (msgs : List W) (h : Hub W) (c : Conn)
      → Distinct h.clients
      → let r = broadcast_loop delivers k msgs h in
        (sent_to c r.writes
          ≡ sent_to c h.writes
            ++ (if is_client c h.clients then until_failure (λ i. delivers i c) k msgs else []))
        × (is_client c r.clients ≡ (is_client c h.clients && all_fine (λ i. delivers i c) k msgs))
  unfolding broadcast_loop until_failure all_fine
  broadcast_loop_lem delivers k [] h c ok = (
    if_split (λ l. sent_to c h.writes ≡ sent_to c h.writes ++ l) (is_client c h.clients)
        (λ _. sym (append-nil (sent_to c h.writes))) (λ _. sym (append-nil (sent_to c h.writes))),
    ground arith,
  )
  broadcast_loop_lem delivers k (msg ∷ msgs) h c ok =
      let (sent, member) =
        broadcast_loop_lem delivers (suc k) msgs (broadcast_to_all (delivers k) msg h.clients h) c
          (broadcast_to_all-Distinct (delivers k) msg h.clients h ok) in
      let sent1 = sent_to-broadcast_to_all (delivers k) msg h.clients h c ok in
      let member1 = is_client-broadcast_to_all (delivers k) msg h.clients h c in
      let rest = until_failure (λ i. delivers i c) (suc k) msgs in
      (
        sent
            ∙ ap
                (λ l.
                  l
                  ++ (if is_client c (broadcast_to_all (delivers k) msg h.clients h).clients
                      then rest
                      else []))
                sent1
            ∙ ap
                (λ b.
                  (sent_to c h.writes ++ (if is_client c h.clients then msg ∷ [] else []))
                  ++ (if b then rest else []))
                member1
            ∙ one_more (is_client c h.clients) (delivers k c) msg (sent_to c h.writes) rest,
        member ∙ ap (λ b. b && all_fine (λ i. delivers i c) (suc k) msgs) member1 ∙ ground arith,
      )
