-- ===== src/Tests/SigningExamples.antt =====
-- The theorems on the crypto plugin's operations at concrete inputs.
use sailfish_crypto_plugins.Common.{ℕ, ◌≡◌, refl, false, true, none, some, [], ◌∷◌, inr}
use sailfish_crypto_plugins.Host.{CryptoKey}
use sailfish_crypto_plugins.Keys.Outcome.{plugin_name}
use sailfish_crypto_plugins.Ffi.Outcome.{succeeded, Parameters}
use sailfish_crypto_plugins.Ffi.Operations.{operation_sign, operation, sign}
use sailfish_crypto_plugins.Ffi.Operations.Exported.{sign-to_crypto_key}
use sailfish_crypto_plugins.Rnp.KeyAccess.Stored.{IsListed}
use sailfish_crypto_plugins.Ffi.Operations.Reached.{operation-Reaches}
use sailfish_crypto_plugins.Ffi.Verification.Reached.{decrypt-Reaches}
use sailfish_crypto_plugins.Ffi.Verification.{
  signed_by, verification_unknown, verification_succeeded, decrypt,
}
use sailfish_crypto_plugins.Ffi.Verification.Subkeys.{signed_by-to_crypto_key}
use sailfish_crypto_plugins.Rnp.Export.{to_crypto_key}
use sailfish_crypto_plugins.Rnp.Verify.{to_signature}
use sailfish_crypto_plugins.Rnp.Key.{Key}
use sailfish_crypto_plugins.Machine.{World, Handle, Rnp, secret}
use sailfish_crypto_plugins.Machine.Ledger.{Reaches}
use sailfish_crypto_plugins.Tests.Toy.{toy, toy_rnp, toy_world, empty_key}

abbrev own_key : CryptoKey
own_key = record empty_key { name = "P"; collection_name = "P"; storage_plugin_name = plugin_name }

abbrev no_parameters : Parameters
no_parameters _ = none

-- The secret ring is opened, with two calls, and six more sign.
abbrev with_secret : Rnp
with_secret = record toy_rnp {
  secret_keyring = some (record { valid = true; modified = false; level = secret });
}

operation-Reaches_example :
    Reaches toy_world
      ((succeeded, some (65 ∷ 66 ∷ [])), with_secret, 8)
      (operation operation_sign own_key (1 ∷ []) no_parameters (some []) toy_world)
operation-Reaches_example =
    operation-Reaches own_key (1 ∷ []) no_parameters toy_world operation_sign (some [])

abbrev sub_key : CryptoKey
sub_key = record own_key { collection_name = "S" }

decrypt-Reaches_example :
    Reaches toy_world
      ((succeeded, 65 ∷ 66 ∷ [], some verification_succeeded), with_secret, 6)
      (decrypt (1 ∷ []) sub_key [] (some verification_unknown) toy_world)
decrypt-Reaches_example = decrypt-Reaches (1 ∷ []) sub_key toy_world [] (some verification_unknown)

abbrev signing_world : World toy
signing_world = record toy_world { rnp = with_secret }

sub_listed : IsListed {H = toy} 1 0 signing_world
sub_listed = record {
  in_capitals = refl;
  finds = refl;
  is_primary = refl;
  among = inr (refl, refl);
}

abbrev sub_handle : Handle ℕ
sub_handle = record { addr = 4; obj = 1 }

abbrev main_handle : Handle ℕ
main_handle = record { addr = 5; obj = 0 }

sign-to_crypto_key_example :
    let k : Key toy = record { m_key = some sub_handle; m_primary = some main_handle } in
    let (e, w') = to_crypto_key plugin_name k signing_world in
    Reaches w'
      ((succeeded, some (65 ∷ 66 ∷ [])), with_secret, 6)
      (sign (1 ∷ []) e no_parameters (some []) w')
sign-to_crypto_key_example =
    sign-to_crypto_key sub_handle main_handle (1 ∷ []) no_parameters []
      (record { valid = true; modified = false; level = secret }) signing_world sub_listed refl

signed_by-to_crypto_key_example :
    let k : Key toy = record { m_key = some sub_handle; m_primary = some main_handle } in
    signed_by (to_crypto_key plugin_name k toy_world).0 (to_signature tt toy_world).0 ≡ false
signed_by-to_crypto_key_example =
    signed_by-to_crypto_key plugin_name sub_handle main_handle tt 1 toy_world refl refl refl refl
