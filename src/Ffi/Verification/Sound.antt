-- ===== src/Ffi/Verification/Sound.antt =====
-- secrets/rnp/rnpffi.cpp: `RnpFfi::verify` and `RnpFfi::decrypt` keep the plugin sound.
use sailfish_crypto_plugins.Common.{refl, Bool, none, some, [], inl, inr, Bool-cases, str_eq}
use sailfish_crypto_plugins.Host.{Host, Bytes, CryptoKey}
use sailfish_crypto_plugins.Machine.{World, Rnp}
use sailfish_crypto_plugins.Rnp.Ring.Sound.{
  HasRings, IsSound, settled-IsSound, Reaches-IsSound, MayOpenPublic-HasRings,
  MayOpenSecret-HasRings,
}
use sailfish_crypto_plugins.Rnp.Verify.Operation.{verified, verified-MayOpenPublic, verify-Does}
use sailfish_crypto_plugins.Rnp.Verify
use sailfish_crypto_plugins.Rnp.Decrypt.Operation.{decrypted, decrypted-MayOpenSecret}
use sailfish_crypto_plugins.Ffi.Verification.Reached.{opened, decrypt-Reaches}
use sailfish_crypto_plugins.Keys.Outcome.{plugin_name}
use sailfish_crypto_plugins.Ffi.Verification.{OutStatus, verify_with, verify, decrypt}

module _ {H : Host} {may : Bool} where
  verified-IsSound :
      (message signature : Bytes) (w : World H)
      → IsSound may w
      → IsSound may (Verify.verify message signature w).1
  verified-IsSound message signature w sound =
      let (n, e) = verify-Does message signature w in
      let v = verified H w.rnp w.ffi message signature in
      settled-IsSound v.0 v.1 v.2 n [] w e
        (MayOpenPublic-HasRings w.rnp v.1 (verified-MayOpenPublic H w.rnp w.ffi message signature)
          sound.rings)
        refl sound

  pub verify-IsSound :
      (signature message : Bytes) (key : CryptoKey) (status : OutStatus) (w : World H)
      → IsSound may w
      → IsSound may (verify signature message key status w).1
  unfolding verify verify_with
  verify-IsSound signature message key none w sound = sound
  verify-IsSound signature message key (some status) w sound =
      elim (Bool-cases (str_eq key.storage_plugin_name plugin_name)) [
        | inl e ↦ rw e (verified-IsSound message signature w sound)
        | inr e ↦ rw e sound
      ]

  opened-HasRings :
      (key : CryptoKey) (message plain : Bytes) (status : OutStatus) (r : Rnp) (s : H.State)
      → HasRings H may r
      → HasRings H may (opened H key message plain status r s).1
  opened-HasRings key message plain none r s h = h
  opened-HasRings key message plain (some status) r s h =
      elim (Bool-cases (str_eq key.storage_plugin_name plugin_name)) [
        | inl ours ↦ rw ours (
            MayOpenSecret-HasRings r (decrypted H r s message (some [])).1
              (decrypted-MayOpenSecret H r s message (some [])) h)
        | inr other ↦ rw other h
      ]

  pub decrypt-IsSound :
      (message : Bytes) (key : CryptoKey) (plain : Bytes) (status : OutStatus) (w : World H)
      → IsSound may w
      → IsSound may (decrypt message key plain status w).1
  decrypt-IsSound message key plain status w sound =
      Reaches-IsSound w (decrypt-Reaches message key w plain status)
        (opened-HasRings key message plain status w.rnp w.ffi sound.rings) sound
