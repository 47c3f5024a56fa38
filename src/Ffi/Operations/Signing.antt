-- ===== src/Ffi/Operations/Signing.antt =====
-- secrets/rnp/rnpffi.cpp: how `RnpFfi::sign` ends, and with which key it signs.
use sailfish_crypto_plugins.Common.{
  ◌≡◌, ◌⊎◌, refl, Bool, true, false, none, some, [], ◌∷◌, str_eq, is_empty, Bool-cases, inl, inr,
  if◌then◌else◌,
}
use sailfish_crypto_plugins.Host.{Host, Bytes, CryptoKey}
use sailfish_crypto_plugins.Machine.{World, deref}
use sailfish_crypto_plugins.Rnp.Key.{Key, null_key}
use sailfish_crypto_plugins.Rnp.KeyAccess.Stored.{stored_at, key_of_crypto-Stored}
use sailfish_crypto_plugins.Rnp.Ring.{secret_keyring}
use sailfish_crypto_plugins.Rnp.Ring.Opened.{secret_opened, secret_keyring_lem}
use sailfish_crypto_plugins.Rnp.Sign.Cleanup.{SignRun, sign-Settles}
use sailfish_crypto_plugins.Keys.Outcome.{plugin_name}
use sailfish_crypto_plugins.Ffi.Outcome.{
  Result, succeeded, failed, Parameters, with_armor, signing_error,
}
use sailfish_crypto_plugins.Ffi.Operations.{
  OutBytes, checked, run_signing, guarded, operation, sign,
}

-- The result for what `Rnp::sign` returned.
abbrev pub reported : Bytes → Result × OutBytes
reported bytes =
    (if is_empty bytes then failed signing_error "cannot sign data." else succeeded, some bytes)

-- What was signed and with which key, from the state `s` of librnp in which the key was looked up.
pub record SignsWith (H : Host) (message : Bytes) (key : CryptoKey) (armor : Bool) (s : H.State)
    (out : Result × OutBytes) : Type 0 where
  pub signer : Key H
  pub bytes : Bytes
  pub left : H.State
  pub refers : deref signer.m_key ≡ stored_at H s key.collection_name key.name
  pub signs : (bytes ≡ []) ⊎ SignRun message (signer ∷ null_key ∷ []) armor s bytes left
  pub result : out ≡ reported bytes

module _ {H : Host} where
  signing_from :
      (message : Bytes) (key : CryptoKey) (parameters : Parameters) (w w1 : World H)
      → (secret_keyring w).1 ≡ w1
      → SignsWith H message key
          (with_armor (parameters "With-Armor"))
          w1.ffi
          (run_signing key message parameters w).0
  unfolding run_signing checked
  signing_from message key parameters w w1 e =
      let k = key_of_crypto-Stored key.collection_name key.name w1 in
      let armor = with_armor (parameters "With-Armor") in
      let st =
        sign-Settles message (k.key ∷ null_key ∷ []) armor
          (record w1 { next = k.next; live = k.live }) in
      record {
        signer = k.key;
        bytes = st.value;
        left = st.state;
        refers = k.refers;
        signs = st.why;
        result = rw e (rw k.run (rw st.run refl));
      }

  -- How `RnpFfi::sign` ends.
  pub data FfiSigns (message : Bytes) (key : CryptoKey) (armor : Bool) (output : OutBytes)
      (w : World H) (out : (Result × OutBytes) × World H) : Type 0 where
    no_output :
        output ≡ none
        → out ≡ ((failed signing_error "missing output argument.", none), w)
        → FfiSigns message key armor output w out
    not_ours :
        (bytes : Bytes)
        → output ≡ some bytes
        → str_eq key.storage_plugin_name plugin_name ≡ false
        → out ≡ ((failed signing_error "cannot use a non RNP key.", some []), w)
        → FfiSigns message key armor output w out
    ours :
        (bytes : Bytes)
        → output ≡ some bytes
        → str_eq key.storage_plugin_name plugin_name ≡ true
        → SignsWith H message key armor (secret_opened H w.rnp w.ffi).1 out.0
        → FfiSigns message key armor output w out

  -- `RnpFfi::sign` without a place for the signature, or for a key that is not the plugin's, fails and
  -- asks nothing of librnp; in the second case it clears the output. Otherwise it opens the secret key
  -- ring if need be and has `Rnp::sign` sign with the one key that librnp has for the collection and
  -- the name of the given one, armored unless "With-Armor" says otherwise; it fails, with an empty
  -- output, if that returns nothing, and else the output is the signature.
  sign-FfiSigns :
      (message : Bytes) (key : CryptoKey) (parameters : Parameters) (output : OutBytes)
      (w : World H)
      → FfiSigns message key
          (with_armor (parameters "With-Armor"))
          output
          w
          (sign message key parameters output w)
  unfolding sign operation guarded
  sign-FfiSigns message key parameters none w = no_output refl refl
  sign-FfiSigns message key parameters (some bytes) w =
      elim (Bool-cases (str_eq key.storage_plugin_name plugin_name)) [
        | inl e ↦
            (let (n, f) = secret_keyring_lem w in
              ours bytes refl e (rw e (signing_from message key parameters w _ f)))
        | inr e ↦ not_ours bytes refl e (rw e refl)
      ]
