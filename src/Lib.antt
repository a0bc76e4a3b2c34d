-- ===== src/Lib.antt =====
-- PocketClaude: a relay server (relay/) and a desktop agent (agent/) for a mobile client.
--
-- The relay keeps a registry of devices, each with its WebSocket connection. A connection sends
-- JSON-RPC text frames (register, list, send, heartbeat) and binary frames, which its router
-- handles; a presence service removes devices whose heartbeats stop. The agent runs beside the
-- code that it serves: it is paired with a client once, keeps terminal sessions, over its own
-- restarts too, reads and writes files, asks git, and calls plugins. A client asks it over a local
-- API, or, encrypted, over the relay, to which the agent's relay client keeps a connection.
--
-- Base holds what all parts share: Boolean tests, lists, Go strings as byte lists, and GoMap, Go's
-- map[string]V as an association list. A range over a map visits the entries in the order of the
-- list. Relay.Protocol is relay/internal/protocol/types.go. Relay.Registry is
-- relay/internal/registry/registry.go: register, unregister, get, update_last_seen, list_online.
-- Relay.Net is the network as the relay sees it: World has the registry, the attempted writes in
-- order, and the closed connections; Env.delivers says of each attempt whether it succeeds.
-- Relay.Router is relay/internal/router/router.go: handle_text and handle_binary with the handlers
-- below them; Relay.Router.Binary is the layout of its binary frames. Relay.Presence is
-- relay/internal/presence/presence.go, with check split into scan and sweep; Relay.Presence.Gap
-- lets other goroutines run between the two. Relay.Handler is
-- relay/internal/api/handler.go: handle_frame, read_loop, cleanup. Relay.System puts them
-- together, as relay/cmd/main.go does: any number of connections, whose steps the environment
-- orders. Relay.Main is the process of that file: its flags, and the steps of main, the presence
-- checker and the server. Relay.Registry.Refinement has the registry as a function from ids to
-- devices. Agent.Bytes is the big-endian coding of counters, and Agent.Cipher is
-- agent/internal/crypto/encrypt.go: encrypt and decrypt. Agent.Files is
-- agent/internal/fs/service.go: check_access, read_dir, read_file, write_file. Agent.Plugins is
-- agent/internal/plugin/plugin.go: register, unregister, fire. Agent.SessionStore is
-- agent/internal/pty/session_store.go, and Agent.Terminals is agent/internal/pty/manager.go:
-- create_session, destroy_session, close_all, restore_sessions, and in Agent.Terminals.Output the
-- loops read_output and poll_tmux over lists; Agent.Terminals.Reading has them as the goroutine
-- readOutput, over endless sequences. Agent.Tmux is agent/internal/pty/tmux.go, with
-- Agent.Tmux.Stub for tmux_stub.go, and Agent.Terminals.Platform makes the host of the terminals
-- of them and of pty_unix.go and pty_windows.go. Agent.Terminals.Stopping puts the manager, tmux
-- and the goroutine together. Agent.Sessions is agent/internal/session/manager.go, with its
-- channels as a list of events. Agent.Git is agent/internal/git/service.go: status, diff, log, and
-- their parsers. Each of Agent.Files, Agent.Git, Agent.Plugins and Agent.Sessions has its
-- HandleRPC in a child module Dispatch, with Agent.Rpc for what such a function returns;
-- Agent.Monitor is agent/internal/process/monitor.go. Agent.Keys is agent/internal/crypto/keys.go:
-- the key pair and the configuration file. Agent.Pairing is agent/internal/crypto/pairing.go, up
-- to the first thing that happens to the pairing server. Agent.Commands is init_cmd, pair_cmd,
-- start_cmd and more of agent/cmd/main.go, and Agent.RelayMessages the handler of relayed messages
-- there, which decrypts a request, gives it to the API, and encrypts the response;
-- Agent.RelayMessages.Stream has that handler over runs of messages. Agent.Daemon is the life of
-- the process that start begins: frames, relayed messages, an error of the server or a signal, and
-- then relayClient.Close, server.Close and the deferred CloseAll; Agent.Terminals.Releasing says
-- what the host opens for a session and what has been released. Agent.Api is
-- agent/internal/api: handle_message with its handlers, over the terminals and the services;
-- Agent.Api.Protocol is its types.go, Agent.Api.Serving the read loop of one connection, and
-- Agent.Api.Clients its map of clients and broadcast_loop. Agent.RelayClient is
-- agent/internal/connection/relay.go: the fields, the messages and the sends;
-- Agent.RelayClient.Steps has Connect, the heartbeats and Close as a step relation, in which the
-- steps of all goroutines come in any order, and Agent.RelayClient.Registration puts it before the
-- relay's router.
--
-- Parameters, with the documented behaviour that a theorem needs: encoding/json, the close
-- messages of the WebSocket library and the network (Env), the AEAD and the key exchange (Crypto),
-- the file system and path/filepath (Os), what git prints (run_git) and leaves on the disk
-- (git_leaves), the file of the session store (StoreIo), what running tmux does (Tmux, and
-- IsServer for what its manual says of names without bytes that are special in a target),
-- pseudo-terminals and processes (Host, Platform), the file and the coding of the configuration (ConfigIo), the
-- sources of keys (Keygen), the network of a pairing (PairIo), what the runtime reports
-- (MonitorIo) and the parameters of API requests (ApiIo). Time is an argument of each step; where a handler reads the
-- clock again, Env.unix_now and Host.tick say what it reads. A
-- handler runs as one step: what other goroutines do inside a handler is not modelled, but for the
-- gap between the scan and the sweep of a presence check, and for the relay client, whose steps
-- touch the shared fields at most once each. Numbers do not wrap, but for the nonce counters,
-- which are taken modulo 2 ^ 64. Loops are recursions on lists, or steps of a relation, but for
-- the two loops of readOutput, which run on fuel: one more than the number of the tick or read
-- that ends them is enough, and the loops are proved to return then. No command of the agent makes
-- an Agent.Sessions manager: agent/internal/api uses the terminals directly.
--
-- Not modelled: logging, the parsing of flags, HTTP servers and their upgrades to WebSocket, the
-- health endpoints, and what commands print, which are calls of the system and of libraries; the
-- client is in Dart.
pub mod Base
pub mod Relay
pub mod Agent
