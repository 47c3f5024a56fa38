-- ===== src/Keys.antt =====
-- secrets/rnp/rnpkeys.cpp, `RnpKeys`: the key rings as collections of secrets. A method that fills
-- a list returns it beside its result.
pub mod Outcome
pub mod Matching
pub mod Collections
pub mod Removal
pub mod Search
