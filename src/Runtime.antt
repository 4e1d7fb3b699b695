-- ===== src/Runtime.antt =====
-- bindings/python/par_runtime/runtime.py: the class `Runtime`, method by method.
pub mod Base
pub mod Registration
pub mod Session
pub mod Invoke
pub mod Documents
pub mod Structured
pub mod Workflow
pub mod Object
pub mod Handlers
pub mod Approval
pub mod Requests
pub mod Closed
pub mod Tidy
pub mod Uses
pub mod Calls
pub mod Envelope
pub mod Answers
pub mod Types
pub mod Flags
pub mod Lifecycle
pub mod Sharing
pub mod Registry
pub mod World
pub mod Threads
mod Tests
