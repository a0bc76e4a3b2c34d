-- ===== src/Agent/Terminals/Surviving.antt =====
-- A session over a restart of the agent, with the tmux server that it runs on.
use pocketclaude.Agent.SessionStore.{SessionStore}
use pocketclaude.Agent.Terminals.Platform.{Platform}
