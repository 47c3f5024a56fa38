-- ===== src/Ffi.antt =====
-- secrets/rnp/rnpffi.cpp, `RnpFfi`: the cryptographic operations that the plugin offers.
pub mod Outcome
pub mod Unsupported
pub mod Operations
pub mod Verification
