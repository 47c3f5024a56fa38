-- ===== src/Ffi/Operations/Sound.antt =====
-- secrets/rnp/rnpffi.cpp: `RnpFfi::sign`, `RnpFfi::encrypt` and `RnpFfi::storedKeyIdentifiers` keep
-- the plugin sound.
use sailfish_crypto_plugins.Common.{
  String, ◌≡◌, ◌∙◌, refl, sym, Bool, List, [], ◌∷◌, inl, inr, Bool-cases, str_eq,
}
use sailfish_crypto_plugins.Host.{Host, Bytes, CryptoKey}
use sailfish_crypto_plugins.Machine.{World}
use sailfish_crypto_plugins.Rnp.Key.{load}
use sailfish_crypto_plugins.Rnp.Key.Handles.{leaked, all-leaked}
use sailfish_crypto_plugins.Rnp.KeyAccess.Listing.{keyids_lem}
use sailfish_crypto_plugins.Rnp.Ring.{public_keyring}
use sailfish_crypto_plugins.Rnp.Ring.Laws.{public_keyring_once, public_keyring-stored}
use sailfish_crypto_plugins.Rnp.Ring.Sound.{IsSound, settled-IsSound, public_keyring-IsSound}
use sailfish_crypto_plugins.Keys.Outcome.{Identifier}
use sailfish_crypto_plugins.Ffi.Outcome.{Parameters}
use sailfish_crypto_plugins.Ffi.Operations.{
  OutBytes, operation_sign, operation_encrypt, sign, encrypt, identify_collections,
  collections_named, stored_key_identifiers,
}
use sailfish_crypto_plugins.Ffi.Operations.Reached.{operation-IsSound}
use sailfish_crypto_plugins.Ffi.Operations.Identifiers.{identify_one}

module _ {H : Host} where
  -- The round for one collection is the same where its ring is open already.
  identify_opened :
      (id : String) (identifiers : List Identifier) (w : World H)
      → identify_collections (id ∷ []) identifiers (public_keyring w).1
        ≡ identify_collections (id ∷ []) identifiers w
  unfolding identify_collections
  identify_opened id identifiers w = rw (public_keyring_once w) refl

module _ {H : Host} {may : Bool} where
  pub sign-IsSound :
      (message : Bytes) (key : CryptoKey) (parameters : Parameters) (output : OutBytes)
      (w : World H)
      → IsSound may w
      → IsSound may (sign message key parameters output w).1
  unfolding sign
  sign-IsSound message key parameters output w sound =
      operation-IsSound key message parameters w operation_sign output sound

  pub encrypt-IsSound :
      (message : Bytes) (key : CryptoKey) (parameters : Parameters) (output : OutBytes)
      (w : World H)
      → IsSound may w
      → IsSound may (encrypt message key parameters output w).1
  unfolding encrypt
  encrypt-IsSound message key parameters output w sound =
      operation-IsSound key message parameters w operation_encrypt output sound

  identify_one-IsSound :
      (id : String) (identifiers : List Identifier) (w : World H)
      → IsSound may w
      → IsSound may (identify_collections (id ∷ []) identifiers w).1
  identify_one-IsSound id identifiers w sound =
      let w1 = (public_keyring w).1 in
      let (n, e) = identify_one (public_keyring w).0 id identifiers w1 (public_keyring-stored w) in
      settled-IsSound _ w1.rnp w1.ffi n (leaked (load "keyid" id w1).0) w1
        (sym (identify_opened id identifiers w) ∙ e) (public_keyring-IsSound w sound).rings
        (all-leaked (load "keyid" id w1).0) (public_keyring-IsSound w sound)

  identify_collections-IsSound :
      (ids : List String) (identifiers : List Identifier) (w : World H)
      → IsSound may w
      → IsSound may (identify_collections ids identifiers w).1
  unfolding identify_collections
  identify_collections-IsSound [] identifiers w sound = sound
  identify_collections-IsSound (id ∷ ids) identifiers w sound =
      let one = identify_collections (id ∷ []) identifiers w in
      identify_collections-IsSound ids one.0 one.1 (identify_one-IsSound id identifiers w sound)

  collections_named-IsSound :
      (collection_name : String) (w : World H)
      → IsSound may w
      → IsSound may (collections_named collection_name w).1
  unfolding collections_named
  collections_named-IsSound collection_name w sound =
      elim (Bool-cases (str_eq collection_name "")) [
        | inl empty ↦
            let w1 = (public_keyring w).1 in
            let (n, e) = keyids_lem w1 in
            let sound1 = public_keyring-IsSound w sound in
            rw empty (settled-IsSound _ w1.rnp w1.ffi n [] w1 e sound1.rings refl sound1)
        | inr named ↦ rw named sound
      ]

  pub stored_key_identifiers-IsSound :
      (collection_name : String) (identifiers : List Identifier) (w : World H)
      → IsSound may w
      → IsSound may (stored_key_identifiers collection_name identifiers w).1
  unfolding stored_key_identifiers
  stored_key_identifiers-IsSound collection_name identifiers w sound =
      elim (Bool-cases (str_eq collection_name "import")) [
        | inl same ↦ rw same sound
        | inr other ↦
            let named = collections_named collection_name w in
            rw other (
              identify_collections-IsSound named.0 identifiers named.1
                (collections_named-IsSound collection_name w sound))
      ]
