-- ===== src/Connector.antt =====
-- connector/pocage: the daemon that runs the coding agents of a machine.
pub mod PromptItems
pub mod PromptItemsRead
pub mod PromptItemsTotal
pub mod McpServers
pub mod McpServersRead
pub mod AgentClient
pub mod Replay
pub mod Loading
pub mod Collected
pub mod Calls
pub mod Connection
pub mod Backoff
pub mod Executor
pub mod Messages
pub mod AgentPermissions
pub mod Steps
pub mod Decisions
pub mod Repeated
pub mod Examples
