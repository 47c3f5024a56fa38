-- ===== src/Tests/OperationExamples.antt =====
-- rnp/rnp.cpp: the theorems on verification and encryption at concrete inputs.
use sailfish_crypto_plugins.Common.{ℕ, ◌≡◌, true, false, some, [], ◌∷◌}
use sailfish_crypto_plugins.Machine.{Rnp, secret}
use sailfish_crypto_plugins.Machine.Ledger.{Quiet, Does}
use sailfish_crypto_plugins.Rnp.Key.{Key, null_key}
use sailfish_crypto_plugins.Rnp.Import.{import_keys}
use sailfish_crypto_plugins.Rnp.Import.Laws.{import_keys-Does}
use sailfish_crypto_plugins.Rnp.Encrypt.{encrypt}
use sailfish_crypto_plugins.Rnp.Encrypt.Operation.{encrypt_lem}
use sailfish_crypto_plugins.Rnp.Verify.{Signature, valid, to_signature, verify}
use sailfish_crypto_plugins.Rnp.Verify.Signatures.{to_signature_lem}
use sailfish_crypto_plugins.Rnp.Verify.Operation.{verify-Does}
use sailfish_crypto_plugins.Rnp.Decrypt.{decrypt}
use sailfish_crypto_plugins.Rnp.Decrypt.Operation.{Ends, decrypt-Ends}
use sailfish_crypto_plugins.Tests.Toy.{toy, toy_rnp, toy_world}

abbrev toy_signature : Signature
toy_signature = record { status = valid; keyid = "S"; fingerprint = "P" }

abbrev both_rings : Rnp
both_rings = record toy_rnp {
  secret_keyring = some (record { valid = true; modified = false; level = secret });
}

abbrev recipient : Key toy
recipient = record {
  m_key = some (record { addr = 8; obj = 1 });
  m_primary = some (record { addr = 7; obj = 0 });
}

-- The subkey signed: its own id, and its primary's fingerprint.
to_signature_lem_example : Quiet (to_signature tt) toy_world toy_signature
to_signature_lem_example = to_signature_lem tt toy_world

verify-Does_example :
    Does toy_world (toy_signature ∷ [], toy_rnp, 4) (verify (1 ∷ []) (2 ∷ []) toy_world)
verify-Does_example = verify-Does (1 ∷ []) (2 ∷ []) toy_world

encrypt_lem_example :
    (n : ℕ) × (encrypt (1 ∷ []) (recipient ∷ null_key ∷ []) (null_key ∷ []) true toy_world
      ≡ (65 ∷ 66 ∷ [], record toy_world { ffi = 6; next = n }))
encrypt_lem_example =
    encrypt_lem (1 ∷ []) (recipient ∷ null_key ∷ []) (null_key ∷ []) true toy_world

import_keys-Does_example : Does toy_world ([], both_rings, 4) (import_keys (1 ∷ []) toy_world)
import_keys-Does_example = import_keys-Does (1 ∷ []) toy_world

decrypt-Ends_example :
    Ends
      (some [])
      toy_world
      ((65 ∷ 66 ∷ [], some (toy_signature ∷ [])), both_rings, 6)
      (decrypt (1 ∷ []) (some []) toy_world)
decrypt-Ends_example = decrypt-Ends (1 ∷ []) (some []) toy_world
