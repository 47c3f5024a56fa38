-- ===== src/Ffi/Operations/Exported.antt =====
-- secrets/rnp/rnpffi.cpp: `RnpFfi::sign` with a key that the plugin has given out.
use sailfish_crypto_plugins.Common.{
  ◌≡◌, ap, ◌∙◌, String, Bool, some, [], ◌∷◌, ◌++◌, str_eq, eq_refl, is_empty, if◌then◌else◌,
}
use sailfish_crypto_plugins.Host.{Host, Bytes}
use sailfish_crypto_plugins.Machine.{World, Handle, Keyring}
use sailfish_crypto_plugins.Machine.Ledger.{Reaches}
use sailfish_crypto_plugins.Rnp.Key.{Key}
use sailfish_crypto_plugins.Rnp.Export.{to_crypto_key}
use sailfish_crypto_plugins.Rnp.Export.Described.{exported}
use sailfish_crypto_plugins.Rnp.Export.Exported.{to_crypto_key-Exports}
use sailfish_crypto_plugins.Rnp.Export.Titles.{titles-exported}
use sailfish_crypto_plugins.Rnp.Export.UserIds.{uids}
use sailfish_crypto_plugins.Rnp.KeyAccess.Stored.{IsListed, exported_again}
use sailfish_crypto_plugins.Rnp.KeyArray.Result.{first_keys}
use sailfish_crypto_plugins.Rnp.Ring.Opened.{secret_from}
use sailfish_crypto_plugins.Rnp.Sign.Operation.{signed}
use sailfish_crypto_plugins.Keys.Outcome.{plugin_name}
use sailfish_crypto_plugins.Ffi.Outcome.{succeeded, failed, signing_error, Parameters, with_armor}
use sailfish_crypto_plugins.Ffi.Operations.{operation_sign, sign}
use sailfish_crypto_plugins.Ffi.Operations.Reached.{
  Operated, operated, signed_with, operation-Reaches,
}

module _ {H : Host} (key primary : Handle H.KeyRef) (message : Bytes) (parameters : Parameters)
    (bytes : Bytes) (kr : Keyring) (w : World H) where
  abbrev armor : Bool
  armor = with_armor (parameters "With-Armor")

  -- What a signature by the one key gives.
  abbrev pub signed_by_key : Operated H
  signed_by_key =
      let (b, s) = signed H w.ffi message (key.obj ∷ []) armor in
      (
        (if is_empty b then failed signing_error "cannot sign data." else succeeded, some b),
        w.rnp,
        s,
      )

  operated-exported :
      IsListed key.obj primary.obj w
      → w.rnp.secret_keyring ≡ some kr
      → operated H
          (exported H w.ffi plugin_name (some key.obj) (some primary.obj))
          operation_sign
          message
          armor
          (some bytes)
          w.rnp
          w.ffi
        ≡ signed_by_key
  operated-exported l opened =
      let e = exported H w.ffi plugin_name (some key.obj) (some primary.obj) in
      let ours =
        ap (λ (t : String × String × String). str_eq t.2 plugin_name)
          (titles-exported H w.ffi plugin_name (some key.obj) (some primary.obj))
        ∙ eq_refl plugin_name in
      rw ours (
        ap (λ p. signed_with H e message armor (secret_from H p w.rnp w.ffi)) opened
        ∙ ap
            (λ r.
              let (b, s) = signed H w.ffi message (first_keys r []) armor in
              (
                (
                  if is_empty b then failed signing_error "cannot sign data." else succeeded,
                  some b,
                ),
                w.rnp,
                s,
              ))
            (exported_again key.obj primary.obj w plugin_name l))

  -- If librnp lists a key, and the secret ring is open, then `RnpFfi::sign` takes what `toCryptoKey`
  -- makes of the key for the plugin's own, and has librnp sign the message with that key and no other,
  -- armored unless "With-Armor" says otherwise: it succeeds with the bytes of the signature if there
  -- are any. What it leaves open are handles of keys and user ids.
  pub sign-to_crypto_key :
      IsListed key.obj primary.obj w
      → w.rnp.secret_keyring ≡ some kr
      → let k : Key H = record { m_key = some key; m_primary = some primary } in
        let (e, w') = to_crypto_key plugin_name k w in
        Reaches w' signed_by_key (sign message e parameters (some bytes) w')
  unfolding sign
  sign-to_crypto_key l opened =
      let x =
        to_crypto_key-Exports plugin_name (record { m_key = some key; m_primary = some primary })
          w in
      let e = exported H w.ffi plugin_name (some key.obj) (some primary.obj) in
      let w' = record w { next = x.next; live = uids x.addrs ++ w.live } in
      rw x.run (
        rw (operated-exported l opened) at
          (operation-Reaches e message parameters w' operation_sign (some bytes)))
