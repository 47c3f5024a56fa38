-- ===== src/Lib.antt =====
-- The sailfish-crypto-plugins: OpenPGP for Sailfish OS on top of librnp.
--
-- The program has three parts. rnp/ wraps librnp's C interface in the C++ class `Rnp`: two key
-- rings, the keys in them, and the operations sign, verify, encrypt, decrypt and import.
-- secrets/rnp/ is a plugin of Sailfish's secrets daemon, whose two interfaces are `RnpKeys` (keys as
-- secrets in collections) and `RnpFfi` (cryptography with these keys); they share one `Rnp` object.
-- qmf/rnp/ is a plugin of the mail framework, which makes an `Rnp` object for each call.
--
-- Files and sources:
--   Host            what is taken from outside: librnp's functions, Qt's text functions
--   Machine         rnp/rnp_p.h, the state of an `Rnp` object and the actions on it
--   Rnp.Ring        rnp/rnp.cpp, the constructors and destructors of `Rnp` and `Rnp::Keyring`
--   Rnp.Key         rnp/rnp.cpp, `Rnp::Key`, but for `toCryptoKey`, which is in Rnp.Export
--   Rnp.KeyAccess   rnp/rnp.cpp, the methods of `Rnp::Keyring`
--   Rnp.KeyArray    rnp/rnp.cpp, the loops over the keys of `Rnp::sign` and `Rnp::encrypt`
--   Rnp.Sign, Rnp.Encrypt, Rnp.Verify, Rnp.Decrypt, Rnp.Import
--                   rnp/rnp.cpp, the operations of these names
--   Rnp.Unlock      rnp/rnp.cpp, the passphrase callback
--   Keys            secrets/rnp/rnpkeys.cpp
--   Ffi             secrets/rnp/rnpffi.cpp
--   Plugin          secrets/rnp/plugin.cpp, and the constants of rnpkeys.h and rnpffi.h; Calls, the
--                   methods that these headers declare, as calls of the one plugin, and what any
--                   calls keep (Sound) and list (Listing); Lifetime, the plugin from its constructor
--                   over any calls to its destructor
--   Qmf             qmf/rnp/plugin.cpp: Canonical and Summary, the text and the result of a
--                   verification; Mail, what is taken from the mail framework; Signing
--                   (`partHasSignature`, `verifySignature`, `sign`); Decryption (`canDecrypt`, `decrypt`);
--                   Calls, the methods of plugin.h one after the other
--   In the folders, Sound is what the operations of a part keep of the state (Rnp.Ring.Sound), and
--   Laws, Operation, Outcome, Result and Reached are what they do.
--   Tests           a small librnp, small mail parts, and the theorems at concrete inputs
--
-- How the code is modelled. librnp is a parameter, the record `Host`: a call takes librnp's state and
-- either succeeds, with its out parameters, or fails and leaves them as they were; a query does not
-- change that state. An action of the code is a function of the state `World`, which holds the
-- members of the `Rnp` object, librnp's state, and a ledger: the handles and buffers that librnp gave
-- out and the code has not given back, and a count of the wrong calls that give one back. So a
-- function that leaks or frees twice shows it in its result. Handles have addresses, which are used
-- once. `goto out` is the passing on of the local pointers to a function that frees them. A pointer
-- to a result that the caller passes in is an Option, and comes back with the result. The mail
-- framework's parts are the parameter `Mail`, whose documented behaviour is the record `MailLaws`; a
-- method that changes a part returns the part that it leaves, and the user's files are librnp's state,
-- which goes from one call of the plugin to the next.
--
-- Bounds and fuel. A loop up to a count that librnp gives recurses on the rounds that are left, which
-- are that count. A loop over an iterator recurses on the list of the iterator's answers. An array of
-- keys that a null key ends is a list of keys. No fuel is used.
--
-- Not modelled: logging; that a text which librnp hands out may be null although the call succeeded;
-- the use of a primary's handle after its owner was destroyed (`m_primary` of a key that
-- `Keyring::key` returns); the passphrase dialogue, which is a parameter of `unlock_key`; the name
-- of the test build of the plugin; `setPassphraseCallback` of `QMailCryptoRNP`, which does nothing;
-- the parts of `RnpFfi` that are commented out; a failure of `rnp_ffi_create`, after which the plugin
-- would go on with no `rnp_ffi_t`; the narrowing of a number of subkeys from `size_t` to `int` in
-- `setSize`.
mod Common
pub mod Host
pub mod Machine
pub mod Rnp
pub mod Keys
pub mod Plugin
pub mod Ffi
pub mod Qmf
mod Tests
