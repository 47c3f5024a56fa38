-- ===== src/Ffi/Operations/Reached.antt =====
-- secrets/rnp/rnpffi.cpp: `RnpFfi::operation` as a whole, against a description without handles.
use sailfish_crypto_plugins.Common.{
  String, refl, Bool, none, some, List, [], ◌∷◌, str_eq, is_empty, Bool-cases, inl, inr,
  if◌then◌else◌,
}
use sailfish_crypto_plugins.Host.{Host, Bytes, CryptoKey}
use sailfish_crypto_plugins.Machine.{World, Rnp}
use sailfish_crypto_plugins.Machine.Ledger.{Reaches}
use sailfish_crypto_plugins.Rnp.Key.{null_key}
use sailfish_crypto_plugins.Rnp.KeyAccess.Stored.{stored_at, key_of_crypto-Stored}
use sailfish_crypto_plugins.Rnp.KeyArray.Result.{first_keys}
use sailfish_crypto_plugins.Rnp.Ring.Opened.{
  public_opened, secret_opened, public_keyring_lem, secret_keyring_lem,
}
use sailfish_crypto_plugins.Rnp.Ring.Sound.{
  HasRings, public_opened-HasRings, secret_opened-HasRings, IsSound, Reaches-IsSound,
}
use sailfish_crypto_plugins.Rnp.Sign.Operation.{signed, sign_lem}
use sailfish_crypto_plugins.Rnp.Encrypt.Operation.{encrypted, encrypt_lem}
use sailfish_crypto_plugins.Keys.Outcome.{plugin_name}
use sailfish_crypto_plugins.Ffi.Outcome.{
  Result, succeeded, failed, Parameters, with_armor, ErrorCode, operation_not_supported_error,
  signing_error, encryption_error,
}
use sailfish_crypto_plugins.Ffi.Operations.{
  Operation, operation_sign, operation_encrypt, operation_other, OutBytes, checked, run_signing,
  run_encryption, guarded, operation,
}

-- The result and the output, the plugin and librnp's state after the last call.
abbrev pub Operated : Host → Type 0
Operated H = (Result × OutBytes) × Rnp × H.State

module _ (H : Host) (key : CryptoKey) where
  -- The key that librnp has for it, if it has one.
  abbrev stored_keys : H.State → List H.KeyRef
  stored_keys s = first_keys (stored_at H s key.collection_name key.name) []

  -- What an operation makes of the key; no bytes are a failure.
  abbrev ended : ErrorCode → String → Bytes × H.State → Rnp → Operated H
  ended code message (b, s) r =
      ((if is_empty b then failed code message else succeeded, some b), r, s)

  abbrev pub signed_with : Bytes → Bool → Rnp × H.State → Operated H
  signed_with message armor (r, s) =
      ended signing_error "cannot sign data." (signed H s message (stored_keys s) armor) r

  abbrev encrypted_with : Bytes → Bool → Rnp × H.State → Operated H
  encrypted_with message armor (r, s) =
      ended encryption_error "cannot encrypt data." (encrypted H s message (stored_keys s) [] armor)
        r

  -- The operation needs a place for its output and a key of the plugin.
  abbrev allowed : ErrorCode → OutBytes → Rnp → H.State → Operated H → Operated H
  allowed code none r s then_done = ((failed code "missing output argument.", none), r, s)
  allowed code (some output) r s then_done =
      if str_eq key.storage_plugin_name plugin_name
      then then_done
      else ((failed code "cannot use a non RNP key.", some []), r, s)

  -- What the operation does: to sign it opens the secret ring, to encrypt the public one.
  abbrev pub operated : Operation → Bytes → Bool → OutBytes → Rnp → H.State → Operated H
  operated operation_sign message armor output r s =
      allowed signing_error output r s (signed_with message armor (secret_opened H r s))
  operated operation_encrypt message armor output r s =
      allowed encryption_error output r s (encrypted_with message armor (public_opened H r s))
  operated operation_other message armor output r s = (
    (failed operation_not_supported_error "Operation not supported by RNP plugin.", output),
    r,
    s,
  )

module _ {H : Host} {may : Bool} (key : CryptoKey) where
  allowed-HasRings :
      (code : ErrorCode) (output : OutBytes) (r : Rnp) (s : H.State) (v : Operated H)
      → HasRings H may r
      → HasRings H may v.1
      → HasRings H may (allowed H key code output r s v).1
  allowed-HasRings code none r s v h g = h
  allowed-HasRings code (some output) r s v h g =
      elim (Bool-cases (str_eq key.storage_plugin_name plugin_name)) [
        | inl ours ↦ rw ours g
        | inr other ↦ rw other h
      ]

  operated-HasRings :
      (op : Operation) (message : Bytes) (armor : Bool) (output : OutBytes) (r : Rnp) (s : H.State)
      → HasRings H may r
      → HasRings H may (operated H key op message armor output r s).1
  operated-HasRings operation_sign message armor output r s h =
      allowed-HasRings signing_error output r s _ h (secret_opened-HasRings r s h)
  operated-HasRings operation_encrypt message armor output r s h =
      allowed-HasRings encryption_error output r s _ h (public_opened-HasRings r s h)
  operated-HasRings operation_other message armor output r s h = h

module _ {H : Host} (key : CryptoKey) (message : Bytes) (parameters : Parameters)
    (w : World H) where
  abbrev armor : Bool
  armor = with_armor (parameters "With-Armor")

  run_signing-Reaches :
      Reaches w
        (signed_with H key message armor (secret_opened H w.rnp w.ffi))
        (run_signing key message parameters w)
  unfolding run_signing checked
  run_signing-Reaches =
      let (n, opened) = secret_keyring_lem w in
      let (r, s) = secret_opened H w.rnp w.ffi in
      let w1 = record w { rnp = r; ffi = s; next = n } in
      let k = key_of_crypto-Stored key.collection_name key.name w1 in
      let (m, run) =
        sign_lem message (k.key ∷ null_key ∷ []) armor
          (record w1 { next = k.next; live = k.live }) in
      let s' = (signed H s message (stored_keys H key s) armor).1 in
      record {
        left = k.left;
        next = m;
        run = rw opened (rw k.run (rw run (rw k.refers (rw (k.destroys s' m) refl))));
        of_keys = k.of_keys;
      }

  run_encryption-Reaches :
      Reaches w
        (encrypted_with H key message armor (public_opened H w.rnp w.ffi))
        (run_encryption key message parameters w)
  unfolding run_encryption checked
  run_encryption-Reaches =
      let (n, opened) = public_keyring_lem w in
      let (r, s) = public_opened H w.rnp w.ffi in
      let w1 = record w { rnp = r; ffi = s; next = n } in
      let k = key_of_crypto-Stored key.collection_name key.name w1 in
      let (m, run) =
        encrypt_lem message (k.key ∷ null_key ∷ []) (null_key ∷ []) armor
          (record w1 { next = k.next; live = k.live }) in
      let s' = (encrypted H s message (stored_keys H key s) [] armor).1 in
      record {
        left = k.left;
        next = m;
        run = rw opened (rw k.run (rw run (rw k.refers (rw (k.destroys s' m) refl))));
        of_keys = k.of_keys;
      }

  nothing-Reaches : (v : Result × OutBytes) → Reaches w (v, w.rnp, w.ffi) (v, w)
  nothing-Reaches v = record { left = []; next = w.next; run = refl; of_keys = refl }

  guarded-Reaches :
      (code : ErrorCode) (output : OutBytes) (run : World H → (Result × OutBytes) × World H)
      (v : Operated H)
      → Reaches w v (run w)
      → Reaches w (allowed H key code output w.rnp w.ffi v) (guarded code key output run w)
  unfolding guarded
  guarded-Reaches code none run v e = nothing-Reaches _
  guarded-Reaches code (some output) run v e =
      elim (Bool-cases (str_eq key.storage_plugin_name plugin_name)) [
        | inl ours ↦ rw ours e
        | inr other ↦ rw other (nothing-Reaches _)
      ]

  -- `RnpFfi::operation` without a place for the output, or for a key that is not the plugin's, fails
  -- and asks nothing of librnp; in the second case it clears the output. Otherwise it opens the secret
  -- ring to sign, or the public one to encrypt, if need be, and has `Rnp::sign` or `Rnp::encrypt` use
  -- the one key that librnp has for the collection and the name of the given one, if any, armored
  -- unless "With-Armor" says otherwise. It succeeds with the bytes that this returns, and fails where
  -- it returns none. Any other operation is not supported. What it
  -- leaves open are handles of keys and user ids.
  pub operation-Reaches :
      (op : Operation) (output : OutBytes)
      → Reaches w
          (operated H key op message armor output w.rnp w.ffi)
          (operation op key message parameters output w)
  unfolding operation
  operation-Reaches operation_sign output =
      guarded-Reaches signing_error output (run_signing key message parameters) _
        run_signing-Reaches
  operation-Reaches operation_encrypt output =
      guarded-Reaches encryption_error output (run_encryption key message parameters) _
        run_encryption-Reaches
  operation-Reaches operation_other output = nothing-Reaches _

  pub operation-IsSound :
      {may : Bool} (op : Operation) (output : OutBytes)
      → IsSound may w
      → IsSound may (operation op key message parameters output w).1
  operation-IsSound op output sound =
      Reaches-IsSound w (operation-Reaches op output)
        (operated-HasRings key op message armor output w.rnp w.ffi sound.rings) sound
