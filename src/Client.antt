-- ===== src/Client.antt =====
-- client/mod.rs: the web server's side.
mod Examples
mod SendExamples
mod HeadExamples
mod ForwardExamples
mod LifecycleExamples
mod TurnsExamples
pub mod Requests
pub mod Connection
pub mod Body
pub mod Response
pub mod Send
pub mod ConPool
pub mod Receive
pub mod Headers
pub mod Decimal
pub mod Params
pub mod Forward
pub mod Lifecycle
pub mod Turns
