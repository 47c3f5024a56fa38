-- ===== src/Rnp.antt =====
-- rnp/rnp.cpp, the wrapper over librnp that both plugins share, a module for each of its parts.
pub mod Key
pub mod KeyAccess
pub mod Ring
pub mod KeyArray
pub mod Sign
pub mod Encrypt
pub mod Verify
pub mod Decrypt
pub mod Import
pub mod Unlock
pub mod Export
