-- ===== src/Qmf.antt =====
-- qmf/rnp/plugin.cpp, the plugin of the mail framework.
pub mod Canonical
pub mod Summary
pub mod Mail
pub mod Signing
pub mod Decryption
pub mod Calls
