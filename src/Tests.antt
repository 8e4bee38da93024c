-- ===== src/Tests.antt =====
-- The theorems at concrete inputs, and runs of the definitions.
mod Errors
mod Web
mod Deadline
mod Rpc
mod Database
mod Store
mod Services
mod Startup
mod Dates
mod Logs
mod Connections
mod Composition
mod Interleavings
