-- ===== src/Ffi/Verification/Subkeys.antt =====
-- secrets/rnp/rnpffi.cpp with `toSignature` and `toCryptoKey` of rnp/rnp.cpp: which keys of Sailfish's a
-- signature is taken for.
use sailfish_crypto_plugins.Common.{
  String, ◌≡◌, ◌⊎◌, refl, ap, ◌∙◌, true, false, Option, some, str_eq, eq_refl, inl, inr,
}
use sailfish_crypto_plugins.Host.{Host, Ret, ok, err}
use sailfish_crypto_plugins.Rnp.Key.Fingerprints.{keyid_at, fingerprint_at, text_of}
use sailfish_crypto_plugins.Rnp.Export.Described.{exported}
use sailfish_crypto_plugins.Rnp.Export.Exported.{to_crypto_key-Exports}
use sailfish_crypto_plugins.Rnp.Export.{to_crypto_key}
use sailfish_crypto_plugins.Rnp.Verify.{to_signature}
use sailfish_crypto_plugins.Rnp.Key.{Key}
use sailfish_crypto_plugins.Machine.{World, Handle}
use sailfish_crypto_plugins.Rnp.Export.Titles.{titles-exported}
use sailfish_crypto_plugins.Rnp.Verify.Signatures.{
  signature_at, to_signature_lem, subkey_id, located_id, replaced,
}
use sailfish_crypto_plugins.Ffi.Verification.{signed_by}

-- The key id that is reported for a subkey: none, or its own.
located_id_cases :
    (H : Host) (s : H.State) (r : H.KeyRef) (x : Ret (Option H.KeyRef))
    → (located_id H s r x ≡ "") ⊎ (located_id H s r x ≡ keyid_at H s (some r))
located_id_cases H s r (err c) = inl refl
located_id_cases H s r (ok p) = inr refl

subkey_id_cases :
    (H : Host) (s : H.State) (r : H.KeyRef) (x : Ret String)
    → (subkey_id H s r x ≡ "") ⊎ (subkey_id H s r x ≡ keyid_at H s (some r))
subkey_id_cases H s r (err c) = inl refl
subkey_id_cases H s r (ok fp) = located_id_cases H s r (H.locate_key "fingerprint" fp s)

no_keyid :
    (collection id own : String)
    → str_eq collection "" ≡ false
    → str_eq collection own ≡ false
    → (id ≡ "") ⊎ (id ≡ own)
    → str_eq collection id ≡ false
no_keyid collection id own empty other (inl e) = ap (str_eq collection) e ∙ empty
no_keyid collection id own empty other (inr e) = ap (str_eq collection) e ∙ other

signed_by-exported :
    (H : Host) (s : H.State) (plugin_name : String) (vsig : H.VerifySig) (r p : H.KeyRef)
    (q : Option H.KeyRef)
    → H.signature_get_key vsig s ≡ ok r
    → H.key_is_primary (some r) s ≡ ok false
    → str_eq (keyid_at H s (some p)) "" ≡ false
    → str_eq (keyid_at H s (some p)) (keyid_at H s (some r)) ≡ false
    → signed_by (exported H s plugin_name q (some p)) (signature_at H s vsig) ≡ false
signed_by-exported H s plugin_name vsig r p q made sub empty other =
    let id = subkey_id_cases H s r (H.key_get_primary_fprint (some r) s) in
    rw (ap (λ t. t.0) (titles-exported H s plugin_name q (some p)))
      (rw made (rw sub (rw (no_keyid _ _ _ empty other id) refl)))

replaced_same : (H : Host) (x : Ret String) → replaced H (text_of H x) x ≡ text_of H x
replaced_same H (err c) = refl
replaced_same H (ok t) = refl

-- A signature that a primary made is taken for that primary.
signed_by-exported_primary :
    (H : Host) (s : H.State) (plugin_name : String) (vsig : H.VerifySig) (r : H.KeyRef)
    → H.signature_get_key vsig s ≡ ok r
    → H.key_is_primary (some r) s ≡ ok true
    → H.key_get_primary_fprint (some r) s ≡ H.key_get_fprint (some r) s
    → signed_by (exported H s plugin_name (some r) (some r)) (signature_at H s vsig) ≡ true
signed_by-exported_primary H s plugin_name vsig r made primary same =
    let t = titles-exported H s plugin_name (some r) (some r) in
    rw (ap (λ t. t.0) t) (
      rw (ap (λ t. t.1) t) (
        rw made (
          rw primary (
            rw same (
              rw (replaced_same H (H.key_get_fprint (some r) s))
                (rw (eq_refl (keyid_at H s (some r))) (eq_refl (fingerprint_at H s (some r)))))))))

module _ {H : Host} where
  -- A signature that a subkey made is taken for no key of the collection of a primary that has a key
  -- id of its own: `RnpFfi::verify` does not take it for what `toCryptoKey` makes of the primary, nor
  -- of the subkey, nor of another subkey.
  pub signed_by-to_crypto_key :
      (plugin_name : String) (key primary : Handle H.KeyRef) (vsig : H.VerifySig) (r : H.KeyRef)
      (w : World H)
      → H.signature_get_key vsig w.ffi ≡ ok r
      → H.key_is_primary (some r) w.ffi ≡ ok false
      → str_eq (keyid_at H w.ffi (some primary.obj)) "" ≡ false
      → str_eq (keyid_at H w.ffi (some primary.obj)) (keyid_at H w.ffi (some r)) ≡ false
      → let k : Key H = record { m_key = some key; m_primary = some primary } in
        signed_by (to_crypto_key plugin_name k w).0 (to_signature vsig w).0 ≡ false
  signed_by-to_crypto_key plugin_name key primary vsig r w made sub empty other =
      let x =
        to_crypto_key-Exports plugin_name (record { m_key = some key; m_primary = some primary })
          w in
      let (n, e) = to_signature_lem vsig w in
      rw x.run (
        rw e (
          signed_by-exported H w.ffi plugin_name vsig r primary.obj (some key.obj) made sub empty
            other))

  -- A signature that a primary made is taken for what `toCryptoKey` makes of that primary.
  signed_by-to_crypto_key_primary :
      (plugin_name : String) (key primary : Handle H.KeyRef) (vsig : H.VerifySig) (w : World H)
      → key.obj ≡ primary.obj
      → H.signature_get_key vsig w.ffi ≡ ok primary.obj
      → H.key_is_primary (some primary.obj) w.ffi ≡ ok true
      → H.key_get_primary_fprint (some primary.obj) w.ffi
        ≡ H.key_get_fprint (some primary.obj) w.ffi
      → let k : Key H = record { m_key = some key; m_primary = some primary } in
        signed_by (to_crypto_key plugin_name k w).0 (to_signature vsig w).0 ≡ true
  signed_by-to_crypto_key_primary plugin_name key primary vsig w own made is same =
      let x =
        to_crypto_key-Exports plugin_name (record { m_key = some key; m_primary = some primary })
          w in
      let (n, e) = to_signature_lem vsig w in
      rw x.run (
        rw e
          (rw own (signed_by-exported_primary H w.ffi plugin_name vsig primary.obj made is same)))
