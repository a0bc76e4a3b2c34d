-- ===== src/Agent/Daemon/Ending.antt =====
-- How the daemon ends, and what it leaves.
use mathlib.Core.Path.{subst}
use mathlib.Core.List.{Perm}
use pocketclaude.Base.{
  ℕ, zero, suc, GoString, text, str_eq, ◌≡◌, refl, sym, Bool, Bool-cases, true, false, Option,
  Option-cases, none, some, inl, inr, List, [], ◌++◌, if◌then◌else◌,
}
use pocketclaude.Base.GoMap.{GoMap, lookup}
use pocketclaude.Agent.Cipher.{Crypto, E2ECipher, Decrypted, plain, failed, decrypt}
use pocketclaude.Agent.Api.Protocol.{JsonRpcResponse}
use pocketclaude.Agent.Api.{ApiIo, Services, Agent, handle_message}
use pocketclaude.Agent.RelayMessages.{
  RelayMessage, Gateway, to_bytes, send_back, to_bytes, relay_request, handle_relay_message,
}
use pocketclaude.Agent.RelayMessages.Stream.{send_back-sealed}
use pocketclaude.Agent.Terminals.{Session, Manager, Effect, create_session, close_all}
use pocketclaude.Agent.Terminals.Lifecycle.{create_session-some, create_session-none}
use pocketclaude.Agent.Terminals.Releasing.{released, handles-started, opened-failed}
use pocketclaude.Agent.Terminals.Releasing.Balance.{
  held, IsBalanced, created-IsBalanced, failed-IsBalanced, destroyed-IsBalanced, closed-IsBalanced,
  fields-IsBalanced,
}
use pocketclaude.Agent.Daemon.{
  Place, waiting, closing_relay, closing_server, returning, exited, is_running, Daemon,
  terminals_of, take_frame, plaintext_of, opened_by, opened_by_message, take_message,
  close_terminals, Reach, begins, frames, relays, fails, signals, closes_relay, closes_server,
  closes_terminals,
}
use pocketclaude.Agent.Keys.{ConfigIo}
use pocketclaude.Agent.Pairing.{PairIo}
use pocketclaude.Agent.Commands.{start_terminals}
use pocketclaude.Agent.Daemon.Starting.{start_terminals-IsBalanced}
use pocketclaude.Agent.Daemon.Changes.{Change, disk_only, created, destroyed, handle_message-Change}

module _ {D Info : Type 0} (sv : Services D Info) where
  abbrev Balanced : Manager D → List Effect → Type 0
  Balanced = IsBalanced sv.store_io sv.host

  -- What the host has opened for the request is started.
  Change-IsBalanced :
      (fresh : GoString) (m m' : Manager D) (started now_opened : List Effect)
      → Change sv fresh m m' now_opened
      → lookup fresh m.sessions ≡ none
      → Balanced m started
      → Balanced m' (now_opened ++ started)
  Change-IsBalanced fresh m _ started _ (disk_only disk) none_yet b =
      fields-IsBalanced sv.store_io sv.host _ _ m.sessions m.effects refl refl b.once b.open_
        b.balance
  Change-IsBalanced fresh m _ started _ (created now project_dir command) none_yet b =
      let run = if str_eq command [] then text "claude" else command in
      let (m', made) = create_session sv.store_io sv.host fresh now project_dir command m in
      elim (Option-cases made) [
        | inl failed_ ↦
            (subst (λ es. Balanced m' (es ++ started))
              (sym (
                opened-failed sv.store_io sv.host m.use_tmux fresh run project_dir now (
                  create_session-none sv.store_io sv.host fresh now project_dir command m failed_)))
              (failed-IsBalanced sv.store_io sv.host m started fresh now project_dir command b
                failed_))
        | inr (s, made_) ↦
            (subst (λ es. Balanced m' (es ++ started))
              (handles-started sv.store_io sv.host m.use_tmux fresh run project_dir now s
                (create_session-some sv.store_io sv.host fresh now project_dir command m s made_).0)
              (created-IsBalanced sv.store_io sv.host m started fresh now project_dir command s b
                none_yet made_))
      ]
  Change-IsBalanced fresh m _ started _ (destroyed id) none_yet b =
      destroyed-IsBalanced sv.store_io sv.host m started id b

-- What has been closed where main is: the relay client, the server, and the sessions. At its end with
-- code 0 that is all of them, and with another code nothing need be.
unfoldable pub HasClosed : Place → Bool → Bool → GoMap Session → Type 0
HasClosed waiting relay_closed serving ss = Unit
HasClosed closing_relay relay_closed serving ss = Unit
HasClosed closing_server relay_closed serving ss = relay_closed ≡ true
HasClosed returning relay_closed serving ss = (relay_closed ≡ true) × (serving ≡ false)
HasClosed (exited zero) relay_closed serving ss =
    (relay_closed ≡ true) × (serving ≡ false) × (ss ≡ [])
HasClosed (exited (suc code)) relay_closed serving ss = Unit

HasClosed-running :
    (p : Place) (relay_closed serving : Bool) (ss ss' : GoMap Session)
    → is_running p ≡ true
    → HasClosed p relay_closed serving ss
    → HasClosed p relay_closed serving ss'
unfolding HasClosed is_running
HasClosed-running waiting r s ss ss' on h = h
HasClosed-running closing_relay r s ss ss' on h = h
HasClosed-running closing_server r s ss ss' on h = h
HasClosed-running returning r s ss ss' on h = h
HasClosed-running (exited code) r s ss ss' on h = absurd cc

module _ {D P Info : Type 0} (c : Crypto) (io : ApiIo) (sv : Services D Info)
    (marshal : JsonRpcResponse Info → Option GoString) (paired_client_id : GoString) where
  decrypted-Change :
      (fresh : GoString) (now : ℕ) (d : Decrypted) (g : Gateway D P)
      → Change sv fresh g.agent.terminals
          (elim d as (λ _. Gateway D P) [
            | failed err ↦ g
            | plain p e ↦
                send_back c io sv marshal paired_client_id e
                  (handle_message io sv fresh now p g.agent)
                  g
          ]).agent.terminals
          (elim (elim d as (λ _. Option GoString) [ failed err ↦ none | plain p e ↦ some p ]) [
            | none ↦ []
            | some raw ↦ opened_by io sv g.agent.terminals.use_tmux fresh raw
          ])
  decrypted-Change fresh now (failed err) g = disk_only g.agent.terminals.disk
  decrypted-Change fresh now (plain p e) g =
      let (a, resp) = handle_message io sv fresh now p g.agent in
      subst
        (λ (g' : Gateway D P).
          Change sv fresh g.agent.terminals g'.agent.terminals
            (opened_by io sv g.agent.terminals.use_tmux fresh p))
        (sym (send_back-sealed c io sv marshal paired_client_id e a resp g))
        (handle_message-Change io sv fresh now p g.agent)

  -- What a message carries is handled as a request, and nothing else is.
  relay_request-Change :
      (fresh : GoString) (now : ℕ) (msg : RelayMessage) (g : Gateway D P)
      → Change sv fresh g.agent.terminals
          (handle_relay_message c io sv marshal paired_client_id fresh now msg g).agent.terminals
          (elim (plaintext_of c g.e2e_cipher msg) [
            | none ↦ []
            | some raw ↦ opened_by io sv g.agent.terminals.use_tmux fresh raw
          ])
  unfolding handle_relay_message relay_request plaintext_of
  relay_request-Change fresh now msg g =
      elim (Bool-cases (str_eq msg.method (text "message.relay"))) [
        | inr e ↦ rw e (disk_only g.agent.terminals.disk)
        | inl e ↦ elim (Option-cases msg.params) [
          | inl n ↦ rw (e, n) (disk_only g.agent.terminals.disk)
          | inr (params, n) ↦ elim (Option-cases params) [
            | inl k ↦ rw (e, n, k) (disk_only g.agent.terminals.disk)
            | inr (payload, k) ↦ elim (Option-cases g.e2e_cipher) [
              | inl h ↦ rw (e, n, k, h) (disk_only g.agent.terminals.disk)
              | inr (cipher, h) ↦ elim (Option-cases (to_bytes payload)) [
                | inl b ↦ rw (e, n, k, h, relay_request, b) (disk_only g.agent.terminals.disk)
                | inr (bytes, b) ↦
                    rw (e, n, k, h, relay_request, b)
                      (decrypted-Change fresh now (decrypt c cipher bytes) g)
              ]
            ]
          ]
        ]
      ]

  abbrev Flags : Daemon D P → Type 0
  Flags d = HasClosed d.place d.relay_closed d.serving d.gateway.agent.terminals.sessions

  Reach-Flags :
      {a : Agent D P} {cipher : Option E2ECipher} {d : Daemon D P} {started : List Effect}
      → Reach c io sv marshal paired_client_id a cipher d started
      → Flags d
  unfolding HasClosed take_frame take_message close_terminals close_all
  Reach-Flags begins = tt
  Reach-Flags (frames {d} r fresh now raw on free) =
      HasClosed-running d.place _ _ _ _ on (Reach-Flags r)
  Reach-Flags (relays {d} r fresh now msg on free) =
      HasClosed-running d.place _ _ _ _ on (Reach-Flags r)
  Reach-Flags (fails r on serving) = tt
  Reach-Flags (signals r at) = tt
  Reach-Flags (closes_relay r at) = refl
  Reach-Flags (closes_server {d} r at) = (
    subst (λ p. HasClosed p d.relay_closed d.serving d.gateway.agent.terminals.sessions) at
        (Reach-Flags r),
    refl,
  )
  Reach-Flags (closes_terminals {d} r at) =
      let flags =
        subst (λ p. HasClosed p d.relay_closed d.serving d.gateway.agent.terminals.sessions) at
          (Reach-Flags r) in
      (flags.0, flags.1, refl)

  Reach-IsBalanced :
      {a : Agent D P} {cipher : Option E2ECipher} {d : Daemon D P} {started : List Effect}
      → IsBalanced sv.store_io sv.host a.terminals []
      → Reach c io sv marshal paired_client_id a cipher d started
      → Balanced sv (terminals_of c io sv marshal paired_client_id d) started
  unfolding opened_by_message take_frame take_message close_terminals
  Reach-IsBalanced b begins = b
  Reach-IsBalanced b (frames r fresh now raw on free) =
      Change-IsBalanced sv fresh _ _ _ _ (handle_message-Change io sv fresh now raw _) free
        (Reach-IsBalanced b r)
  Reach-IsBalanced b (relays r fresh now msg on free) =
      Change-IsBalanced sv fresh _ _ _ _ (relay_request-Change fresh now msg _) free
        (Reach-IsBalanced b r)
  Reach-IsBalanced b (fails r on serving) = Reach-IsBalanced b r
  Reach-IsBalanced b (signals r at) = Reach-IsBalanced b r
  Reach-IsBalanced b (closes_relay r at) = Reach-IsBalanced b r
  Reach-IsBalanced b (closes_server r at) = Reach-IsBalanced b r
  Reach-IsBalanced b (closes_terminals r at) =
      closed-IsBalanced sv.store_io sv.host _ _ (Reach-IsBalanced b r)

  -- The daemon begins with the terminals of start, from whatever is stored. Frames of the API and
  -- messages from the relay come in at any time, each with a new id, and a signal or an error of the
  -- server ends it. In every state, what the host has opened for the requests to create a session is, up
  -- to the order, what has been released together with what the sessions hold: no process, PTY or
  -- console is lost or released twice.
  -- Where it has ended with code 0, the relay client and the server are closed, and no session is left.
  pub Reach-Perm :
      {a : Agent D P} {cipher : Option E2ECipher} {d : Daemon D P} {started : List Effect}
      → (config_io : ConfigIo D) (net : PairIo) (now : ℕ) (disk : D)
      → a.terminals ≡ start_terminals c config_io net sv.store_io sv.host now disk
      → Reach c io sv marshal paired_client_id a cipher d started
      → let m = d.gateway.agent.terminals in
        Perm started (released m.effects ++ held sv.store_io sv.host m.sessions)
        × HasClosed d.place d.relay_closed d.serving m.sessions
  Reach-Perm config_io net now disk begun r =
      let first =
        subst (λ m. Balanced sv m []) (sym begun)
          (start_terminals-IsBalanced sv.store_io sv.host c config_io net now disk) in
      ((Reach-IsBalanced first r).balance, Reach-Flags r)
