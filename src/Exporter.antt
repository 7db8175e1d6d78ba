-- ===== src/Exporter.antt =====
-- examples/jumpstarter/src/jumpstarter_provider/exporter.py: the Jumpstarter SDK behind one seam.
-- `Connection` is what the worker thread owns, `Worker` its loop, `Threads` the worker threads that
-- share one command queue, `Describe` and `Tree` the shaping of a call's result and of its target.
pub mod Connection
pub mod Worker
pub mod Threads
pub mod Describe
pub mod Tree
pub mod Drain
pub mod Commands
mod Tests
