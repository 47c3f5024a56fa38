-- ===== src/Ffi/Verification/Reached.antt =====
-- secrets/rnp/rnpffi.cpp: `RnpFfi::decrypt` as a whole, against a description without handles.
use sailfish_crypto_plugins.Common.{
  ◌≡◌, refl, true, Option, none, some, List, [], ◌∷◌, ◌&&◌, str_eq, is_empty, all, Bool-cases, inl,
  inr, if◌then◌else◌,
}
use sailfish_crypto_plugins.Host.{Host, Bytes, CryptoKey}
use sailfish_crypto_plugins.Machine.{World, Rnp, Resource}
use sailfish_crypto_plugins.Machine.Ledger.{is_of_key, Reaches}
use sailfish_crypto_plugins.Rnp.Verify.{
  Signature, Status, valid, expired, missing_key, invalid, unknown,
}
use sailfish_crypto_plugins.Rnp.Decrypt.Recipient.{Leak, none_left, one_left}
use sailfish_crypto_plugins.Rnp.Decrypt.Operation.{Decrypted, decrypted, decrypt-Ends}
use sailfish_crypto_plugins.Keys.Outcome.{plugin_name}
use sailfish_crypto_plugins.Ffi.Outcome.{Result, succeeded, failed, decryption_error}
use sailfish_crypto_plugins.Ffi.Verification.{
  OutStatus, VerificationStatus, verification_unknown, verification_succeeded,
  verification_key_expired, verification_key_invalid, verification_failed, verdict, signed_by,
  signers_of, first_verdict, decrypt_with, decrypt,
}

-- The first signature with the key's collection name as its key id, and the key's name as its
-- fingerprint.
abbrev chosen : CryptoKey → List Signature → Option Signature
chosen key [] = none
chosen key (s ∷ rest) =
    if str_eq key.collection_name s.keyid && str_eq key.name s.fingerprint
    then some s
    else chosen key rest

-- What its status says of the key.
abbrev judged : Status → VerificationStatus
judged valid = verification_succeeded
judged expired = verification_key_expired
judged missing_key = verification_key_invalid
judged invalid = verification_failed
judged unknown = verification_unknown

verdict-judged : (status : Status) → verdict status ≡ judged status
verdict-judged valid = refl
verdict-judged expired = refl
verdict-judged missing_key = refl
verdict-judged invalid = refl
verdict-judged unknown = refl

abbrev verdict_on : Option Signature → VerificationStatus
verdict_on none = verification_unknown
verdict_on (some s) = judged s.status

first_verdict-chosen :
    (key : CryptoKey) (sigs : List Signature)
    → first_verdict key sigs ≡ verdict_on (chosen key sigs)
unfolding first_verdict
first_verdict-chosen key [] = refl
first_verdict-chosen key (s ∷ rest) = elim (Bool-cases (signed_by key s)) [
  | inl e ↦ rw e (verdict-judged s.status)
  | inr e ↦ rw e (first_verdict-chosen key rest)
]

-- The result, the plain text and the status, the plugin and librnp's state after the last call.
abbrev pub Opened : Host → Type 0
Opened H = (Result × Bytes × OutStatus) × Rnp × H.State

module _ (H : Host) (key : CryptoKey) where
  -- Of what `Rnp::decrypt` gives: no bytes are a failure.
  abbrev reported : Decrypted H → Opened H
  reported ((bytes, signers), r, s) = (
    if is_empty bytes
        then (failed decryption_error "cannot decrypt data.", bytes, some verification_unknown)
        else (succeeded, bytes, some (verdict_on (chosen key (signers_of signers)))),
    r,
    s,
  )

  abbrev pub opened : Bytes → Bytes → OutStatus → Rnp → H.State → Opened H
  opened message plain none r s =
      ((failed decryption_error "missing verificationStatus argument.", plain, none), r, s)
  opened message plain (some status) r s =
      if str_eq key.storage_plugin_name plugin_name
      then reported (decrypted H r s message (some []))
      else (
        (
          failed decryption_error "cannot decrypt with a non RNP key.",
          plain,
          some verification_unknown,
        ),
        r,
        s,
      )

all-Leak : {xs : List Resource} → Leak xs → all is_of_key xs ≡ true
all-Leak none_left = refl
all-Leak (one_left a) = refl

module _ {H : Host} (message : Bytes) (key : CryptoKey) (w : World H) where
  decrypt_with-Reaches :
      Reaches w
        (reported H key (decrypted H w.rnp w.ffi message (some [])))
        (decrypt_with message key w)
  unfolding decrypt_with
  decrypt_with-Reaches =
      let (xs, l, n, e) = decrypt-Ends message (some []) w in
      record {
        left = xs;
        next = n;
        run = rw e (
            rw
              (first_verdict-chosen key
                (signers_of (decrypted H w.rnp w.ffi message (some [])).0.1))
              refl);
        of_keys = all-Leak l;
      }

  -- `RnpFfi::decrypt` without a place for the status, or with a key that is not the plugin's, fails,
  -- asks nothing of librnp and leaves the output as it is. Otherwise it has `Rnp::decrypt` decrypt,
  -- which opens the secret ring if need be: it fails where that returns no bytes, and else succeeds
  -- with them and with what the status of the first signature that has the key's collection name as
  -- its key id and the key's name as its fingerprint says, or "unknown" if there is none. What it
  -- leaves open are handles of keys and user ids.
  pub decrypt-Reaches :
      (plain : Bytes) (status : OutStatus)
      → Reaches w
          (opened H key message plain status w.rnp w.ffi)
          (decrypt message key plain status w)
  unfolding decrypt
  decrypt-Reaches plain none = record { left = []; next = w.next; run = refl; of_keys = refl }
  decrypt-Reaches plain (some status) =
      elim (Bool-cases (str_eq key.storage_plugin_name plugin_name)) [
        | inl ours ↦ rw ours decrypt_with-Reaches
        | inr other ↦ rw other (record { left = []; next = w.next; run = refl; of_keys = refl })
      ]
