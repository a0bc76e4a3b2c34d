-- ===== src/Agent.antt =====
-- The desktop agent (agent/): pairing, end-to-end encryption, terminals, files, plugins and more.
pub mod Bytes
pub mod Cipher
pub mod Files
pub mod Git
pub mod Keys
pub mod RelayMessages
pub mod Daemon
pub mod RelayClient
pub mod Api
pub mod Rpc
pub mod Monitor
pub mod Pairing
pub mod Commands
pub mod Plugins
pub mod SessionStore
pub mod Terminals
pub mod Tmux
pub mod Sessions
mod Examples
mod TerminalExamples
mod SmallTmux
mod TmuxExamples
mod GitExamples
mod KeyExamples
mod ApiExamples
mod GatewayExamples
mod DaemonExamples
