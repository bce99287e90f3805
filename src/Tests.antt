-- ===== src/Tests.antt =====
-- The theorems at concrete inputs.
mod Samples
mod Startup
mod Wrapping
mod Runtime
mod Instructions
mod Messages
mod Threads
mod Events
mod Handshake
mod Handlers
mod Loops
mod Linked
mod Names
