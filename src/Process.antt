-- ===== src/Process.antt =====
-- The process library: variants, the definition of a process with its parameters, and the arguments
-- that a worker is launched with.
pub mod TextMap
pub mod Variant
pub mod Definition
pub mod Worker
