-- ===== src/Go.antt =====
-- What the program takes from the Go language: maps, the values behind `interface{}`, errors,
-- panics and effects.
pub mod Assoc
pub mod Value
pub mod Exec
pub mod Bind
pub mod Heap
pub mod Keeps
pub mod Ends
pub mod Family
pub mod Yields
pub mod Cases
