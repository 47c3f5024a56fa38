-- ===== src/Tests/KeyExamples.antt =====
-- rnp/rnp.cpp: the theorems on keys at concrete inputs.
use sailfish_crypto_plugins.Common.{ℕ, ◌≡◌, true, none, some, [], ◌∷◌}
use sailfish_crypto_plugins.Machine.{Handle, handle, key_handle}
use sailfish_crypto_plugins.Machine.Ledger.{Quiet}
use sailfish_crypto_plugins.Rnp.Key.{Key, load, destroy, fingerprints, subkey, remove, null_key}
use sailfish_crypto_plugins.Rnp.Key.Fingerprints.{fingerprints_lem}
use sailfish_crypto_plugins.Rnp.Key.Handles.{Loads, load-Loads, destroy-load}
use sailfish_crypto_plugins.Rnp.Key.Subkeys.{Gives, subkey-Gives}
use sailfish_crypto_plugins.Rnp.Key.Removal.{remove_lem}
use sailfish_crypto_plugins.Rnp.KeyAccess.{keyids}
use sailfish_crypto_plugins.Rnp.KeyAccess.Listing.{keyids_lem}
use sailfish_crypto_plugins.Rnp.Sign.{sign}
use sailfish_crypto_plugins.Rnp.Sign.Operation.{sign_lem}
use sailfish_crypto_plugins.Tests.Toy.{toy, toy_world}

abbrev primary_handle : Handle ℕ
primary_handle = record { addr = 7; obj = 0 }

abbrev subkey_handle : Handle ℕ
subkey_handle = record { addr = 8; obj = 1 }

abbrev primary_key : Key toy
primary_key = record { m_key = some primary_handle; m_primary = some primary_handle }

abbrev sub_key : Key toy
sub_key = record { m_key = some subkey_handle; m_primary = some primary_handle }

load-Loads_example : Loads toy_world (some 1) (some 0) (load "keyid" "S" toy_world)
load-Loads_example = load-Loads "keyid" "S" toy_world

destroy-load_example :
    let (k, w') = load "keyid" "P" toy_world in
    (n : ℕ) × (destroy k w' ≡ (tt, record toy_world { next = n }))
unfolding load
destroy-load_example = destroy-load "keyid" "P" toy_world

fingerprints_lem_example : Quiet (fingerprints primary_key) toy_world ("P" ∷ "S" ∷ [])
fingerprints_lem_example = fingerprints_lem primary_key toy_world

keyids_lem_example : Quiet keyids toy_world ("P" ∷ [])
keyids_lem_example = keyids_lem toy_world

subkey-Gives_example : Gives toy_world (some 1) (subkey primary_key "S" toy_world)
subkey-Gives_example = subkey-Gives primary_key "S" toy_world

remove_lem_example : remove sub_key (record toy_world { live = handle key_handle 8 ∷ [] }) ≡ (
  (true, record { m_key = none; m_primary = some primary_handle }),
  record toy_world { ffi = 1 },
)
remove_lem_example = remove_lem sub_key toy_world 0

sign_lem_example :
    (n : ℕ) × (sign (1 ∷ []) (sub_key ∷ null_key ∷ []) true toy_world
      ≡ (65 ∷ 66 ∷ [], record toy_world { ffi = 6; next = n }))
sign_lem_example = sign_lem (1 ∷ []) (sub_key ∷ null_key ∷ []) true toy_world
