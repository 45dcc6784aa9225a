-- ===== src/Tests.antt =====
-- Runs of the model at concrete data, and the theorems at inputs that meet their hypotheses.
mod Message
mod Iterator
mod Sender
mod Receiver
mod Queue
mod Server
mod Management
mod Managers
mod Schedule
mod Sessions
mod Transit
mod Tracing
mod Concurrent
mod Overlap
mod Namespace
mod Errors
