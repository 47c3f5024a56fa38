-- ===== src/Ffi/Verification/Laws.antt =====
-- secrets/rnp/rnpffi.cpp: what `RnpFfi::verify` concludes from the signatures that librnp finds.
use sailfish_crypto_plugins.Common.{
  ℕ, String, ◌≡◌, ◌≢◌, ◌⊎◌, inl, inr, refl, Bool, true, false, some, none, List, [], ◌∷◌, ◌&&◌,
  str_eq, eq_iff, Bool-cases, str_eq_apart, arith,
}
use sailfish_crypto_plugins.Host.{Host, Bytes, CryptoKey}
use sailfish_crypto_plugins.Machine.{World}
use sailfish_crypto_plugins.Rnp.Verify.{
  Signature, Status, valid, expired, missing_key, invalid, unknown,
}
use sailfish_crypto_plugins.Rnp.Verify.Operation.{verified, verify-Does}
use sailfish_crypto_plugins.Keys.Outcome.{plugin_name}
use sailfish_crypto_plugins.Ffi.Outcome.{Result, succeeded, failed, verification_error}
use sailfish_crypto_plugins.Ffi.Verification.{
  VerificationStatus, verification_unknown, verification_succeeded, verification_key_expired,
  verification_key_invalid, verification_failed, OutStatus, verdict, signed_by, first_verdict,
  verify,
}

-- What a signature's status says of the verification.
pub data Judges : Status → VerificationStatus → Type 0 where
  valid_succeeds : Judges valid verification_succeeded
  expired_is_expired : Judges expired verification_key_expired
  missing_is_invalid : Judges missing_key verification_key_invalid
  invalid_fails : Judges invalid verification_failed
  unknown_is_unknown : Judges unknown verification_unknown

verdict-Judges : (st : Status) → Judges st (verdict st)
verdict-Judges valid = valid_succeeds
verdict-Judges expired = expired_is_expired
verdict-Judges missing_key = missing_is_invalid
verdict-Judges invalid = invalid_fails
verdict-Judges unknown = unknown_is_unknown

-- The first signature with the key's two names decides; none of them is unknown.
pub data Decides (key : CryptoKey) : List Signature → VerificationStatus → Type 0 where
  nobody : Decides key [] verification_unknown
  by_key :
      {s : Signature} {rest : List Signature} {v : VerificationStatus}
      → key.collection_name ≡ s.keyid
      → key.name ≡ s.fingerprint
      → Judges s.status v
      → Decides key (s ∷ rest) v
  by_other :
      {s : Signature} {rest : List Signature} {v : VerificationStatus}
      → (key.collection_name ≢ s.keyid) ⊎ (key.name ≢ s.fingerprint)
      → Decides key rest v
      → Decides key (s ∷ rest) v

str_eq_sound : (a b : String) → str_eq a b ≡ true → a ≡ b
str_eq_sound a b = (eq_iff a b).0

both_true : (a b : Bool) → (a && b) ≡ true → (a ≡ true) × (b ≡ true)
both_true a b e = ground arith

one_false : (a b : Bool) → (a && b) ≡ false → (a ≡ false) ⊎ (b ≡ false)
one_false a b e = ground arith

first_verdict-Decides :
    (key : CryptoKey) (sigs : List Signature) → Decides key sigs (first_verdict key sigs)
unfolding first_verdict
first_verdict-Decides key [] = nobody
first_verdict-Decides key (s ∷ rest) = elim (Bool-cases (signed_by key s)) [
  | inl e ↦
      (let (a, b) = both_true _ _ e in
        rw e (by_key (str_eq_sound _ _ a) (str_eq_sound _ _ b) (verdict-Judges s.status)))
  | inr e ↦ rw e (
      by_other
        (elim (one_false _ _ e) [
          | inl a ↦ inl (str_eq_apart _ _ a)
          | inr b ↦ inr (str_eq_apart _ _ b)
        ])
        (first_verdict-Decides key rest))
]

module _ {H : Host} where
  -- How `RnpFfi::verify` ends.
  pub data Concludes (signature message : Bytes) (key : CryptoKey) (status : OutStatus)
      (w : World H) (out : (Result × OutStatus) × World H) : Type 0 where
    no_status :
        status ≡ none
        → out ≡ ((failed verification_error "missing verificationStatus argument.", none), w)
        → Concludes signature message key status w out
    not_ours :
        (before : VerificationStatus)
        → status ≡ some before
        → key.storage_plugin_name ≢ plugin_name
        → out ≡ (
          (
            failed verification_error "cannot verify with a non RNP key.",
            some verification_unknown,
          ),
          w,
        )
        → Concludes signature message key status w out
    decided :
        (before v : VerificationStatus) (n : ℕ)
        → status ≡ some before
        → key.storage_plugin_name ≡ plugin_name
        → Decides key (verified H w.rnp w.ffi message signature).0 v
        → out ≡ (
          (succeeded, some v),
          record w {
            rnp = (verified H w.rnp w.ffi message signature).1;
            ffi = (verified H w.rnp w.ffi message signature).2;
            next = n;
          },
        )
        → Concludes signature message key status w out

  -- `RnpFfi::verify` without a place for the status, or for a key that is not the plugin's, fails and
  -- asks nothing of librnp; in the second case it writes "unknown". Otherwise it succeeds, and the
  -- first signature that librnp finds with the key's collection name as its key id and the key's name
  -- as its fingerprint decides what is written: success for a valid signature, an expired key for an
  -- expired one, an invalid key for one whose key is missing, a failure for an invalid one, and
  -- "unknown" for one of an unknown status, or where no signature is the key's. librnp's state and the
  -- plugin's rings are as `Rnp::verify` leaves them, and nothing else is left open.
  pub verify-Concludes :
      (signature message : Bytes) (key : CryptoKey) (status : OutStatus) (w : World H)
      → Concludes signature message key status w (verify signature message key status w)
  unfolding verify
  verify-Concludes signature message key none w = no_status refl refl
  verify-Concludes signature message key (some before) w =
      elim (Bool-cases (str_eq key.storage_plugin_name plugin_name)) [
        | inl ours ↦
            (let (sigs, rnp, s) = verified H w.rnp w.ffi message signature in
              let (n, e) = verify-Does message signature w in
              decided before (first_verdict key sigs) n refl (str_eq_sound _ _ ours)
                (first_verdict-Decides key sigs) (rw ours (rw e refl)))
        | inr other ↦ not_ours before refl (str_eq_apart _ _ other) (rw other refl)
      ]
