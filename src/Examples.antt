-- ===== src/Examples.antt =====
-- Runs on concrete input, with simple stand-ins for the third-party functions.
pub mod Toy
pub mod Rooms
mod Proofs
mod Texts
mod Polls
mod Hosted
pub mod Locals
mod Wires
mod Papers
mod Shells
mod Joint
pub mod Joins
mod Seats
mod Pages
mod Tools
