-- ===== src/Qmf/Signing/Outcome.antt =====
-- qmf/rnp/plugin.cpp: how `QMailCryptoRNP::sign` ends, on every path.
use mathlib.Core.Bool.{true≢false}
use sailfish_crypto_plugins.Common.{
  String, ◌≡◌, ◌⊎◌, refl, sym, ap, ◌∙◌, Bool, true, false, Option, some, List, [], ◌∷◌, ◌++◌, map,
  Bool-cases, is_empty, inl, inr, if◌then◌else◌,
}
use sailfish_crypto_plugins.Host.{Host, Bytes}
use sailfish_crypto_plugins.Machine.{World, Rnp, gpg_compat, secret}
use sailfish_crypto_plugins.Rnp.Key.{Key, null_key}
use sailfish_crypto_plugins.Rnp.Ring.{construct, new_rnp, secret_keyring}
use sailfish_crypto_plugins.Rnp.Ring.Laws.{secret_keyring_cached}
use sailfish_crypto_plugins.Rnp.Ring.Opened.{
  fresh_keyring, secret_opened, secret_keyring_lem, secret_keyring-stored,
}
use sailfish_crypto_plugins.Rnp.Sign.Cleanup.{SignRun, sign-Settles}
use sailfish_crypto_plugins.Qmf.Canonical.{canonicalize}
use sailfish_crypto_plugins.Qmf.Mail.{Mail}
use sailfish_crypto_plugins.Qmf.Summary.{
  SignatureResult, signature_valid, key_missing, unknown_error,
}
use sailfish_crypto_plugins.Qmf.Signing.{
  load_signers, part_to_sign, with_signature, signed_part, sign_with, sign_loaded, sign,
}
use sailfish_crypto_plugins.Qmf.Signing.Signers.{
  refs_of, all_there, signer_at, LoadsAll, load_signers-LoadsAll,
}

-- The plugin and librnp's state where the signers are looked up: the secret key ring is open if one
-- is asked for.
abbrev pub looked_up : (H : Host) → List String → H.State → Rnp × H.State
looked_up H [] s = let w = construct H gpg_compat s in (w.rnp, w.ffi)
looked_up H (_ ∷ _) s = let w = construct H gpg_compat s in secret_opened H w.rnp w.ffi

abbrev pub looked_up_in : (H : Host) → List String → H.State → H.State
looked_up_in H keys s = (looked_up H keys s).1

-- The text that is signed.
abbrev pub message_of : (m : Mail) → m.Part → Bytes
message_of m part = m.to_rfc2822 (part_to_sign m part)

abbrev pub signed_of : (m : Mail) → m.Part → m.Part
signed_of m part = m.set_undecoded_data (message_of m part) (part_to_sign m part)

module _ {H : Host} where
  -- The loop's first round may open the ring before it: it finds it open.
  load_signers_opened :
      (fp : String) (fps : List String) (before : List (Key H)) (w : World H)
      → load_signers (fp ∷ fps) before w ≡ load_signers (fp ∷ fps) before (secret_keyring w).1
  unfolding load_signers
  load_signers_opened fp fps before w =
      sym (rw (secret_keyring_cached _ (secret_keyring w).1 (secret_keyring-stored w)) refl)

  -- The loop as the whole function runs it.
  pub loaded_signers :
      (keys : List String) (s : H.State)
      → (w : World H) × (((w.rnp, w.ffi) ≡ looked_up H keys s)
          × LoadsAll w [] keys (load_signers keys [] (construct H gpg_compat s)))
  unfolding construct new_rnp load_signers
  loaded_signers [] s = (
    construct H gpg_compat s,
    (refl, record { signers = []; next = 0; live = []; run = refl; complete = inr refl }),
  )
  loaded_signers (fp ∷ fps) s =
      let w = construct H gpg_compat s in
      let (n, e) = secret_keyring_lem w in
      let opened = secret_opened H w.rnp w.ffi in
      let w1 = record w { rnp = opened.0; ffi = opened.1; next = n } in
      (
        w1,
        (
          refl,
          rw (load_signers_opened fp fps [] w) (
              rw e
                (load_signers-LoadsAll (fresh_keyring H w.rnp secret w.ffi) (fp ∷ fps) [] w1 refl)),
        ),
      )

-- The end of `sign` for what `Rnp::sign` returned: nothing signed, or the part with it.
abbrev pub ending : (m : Mail) → m.Part → Bytes → SignatureResult × Option m.Part
ending m part bytes =
    if is_empty bytes
    then (unknown_error, some part)
    else (signature_valid, some (with_signature m (signed_of m part) bytes part))

-- How `sign` ends where librnp has the keys: no data was signed, or the part holds what was.
pub record SignsPart (H : Host) (m : Mail) (part : m.Part) (keys : List String) (s : H.State)
    (out : SignatureResult × Option m.Part) : Type 0 where
  pub signers : List (Key H)
  pub bytes : Bytes
  pub left : H.State
  -- The keys are those of the fingerprints, in their order.
  pub listed : refs_of signers ≡ map (signer_at H s) keys
  pub signs :
      (bytes ≡ [])
      ⊎ SignRun (canonicalize (message_of m part)) (signers ++ null_key ∷ []) true s bytes left
  pub result : out ≡ ending m part bytes

module _ (H : Host) (m : Mail) where
  abbrev pub kept : SignatureResult × m.Part → SignatureResult × Option m.Part
  kept r = (r.0, some r.1)

  pub signed_result :
      (part : m.Part) (bytes : Bytes)
      → kept (signed_part m (signed_of m part) part bytes) ≡ ending m part bytes
  unfolding signed_part
  signed_result part bytes = elim (Bool-cases (is_empty bytes)) [
    | inl e ↦ rw e refl
    | inr e ↦ rw e refl
  ]

  -- What is returned, and the part that is left, of the loop's result.
  abbrev result_of : m.Part → (List (Key H) × Bool) × World H → SignatureResult × Option m.Part
  unfolding sign_loaded
  result_of part (l, w) = kept (sign_loaded m part l w).0

  loaded_outcome :
      (part : m.Part) (keys : List String) (w : World H) (out : (List (Key H) × Bool) × World H)
      → LoadsAll w [] keys out
      → ((all_there H w.ffi keys ≡ false) × (result_of part out ≡ (key_missing, some part)))
        ⊎ ((all_there H w.ffi keys ≡ true) × SignsPart H m part keys w.ffi (result_of part out))
  unfolding sign_loaded sign_with
  loaded_outcome part keys w out l = elim (Bool-cases (all_there H w.ffi keys)) [
    | inl there ↦
        (let w1 = record w { next = l.next; live = l.live } in
          let st =
            sign-Settles (canonicalize (message_of m part)) (l.signers ++ null_key ∷ []) true w1 in
          inr (
            there,
            record {
              signers = l.signers;
              bytes = st.value;
              left = st.state;
              listed = elim l.complete [
                | inl absent ↦ absurd (true≢false (sym there ∙ absent))
                | inr held ↦ held
              ];
              signs = st.why;
              result = rw l.run (rw there (rw st.run (signed_result part st.value)));
            },
          ))
    | inr missing ↦ inl (missing, rw l.run (rw missing refl))
  ]

  -- `sign` returns MissingKey and leaves the part as it is if librnp, with the secret key ring loaded,
  -- lacks the key of one of the fingerprints. If it has them all, then `Rnp::sign` is asked for an
  -- armored signature of the canonical text of the part to sign, by just those keys in the order of
  -- the fingerprints: where it returns no data, `sign` returns UnknownError and the part is as it was,
  -- and else SignatureValid, and the part holds the text that was signed with the signature.
  pub sign_outcome :
      (part : m.Part) (keys : List String) (s : H.State)
      → let s1 = looked_up_in H keys s in
        ((all_there H s1 keys ≡ false)
          × ((sign H m (some part) keys s).0 ≡ (key_missing, some part)))
        ⊎ ((all_there H s1 keys ≡ true)
            × SignsPart H m part keys s1 (sign H m (some part) keys s).0)
  unfolding sign
  sign_outcome part keys s =
      let (w, (e, l)) = loaded_signers {H = H} keys s in
      rw (ap (λ p. p.1) e) at (loaded_outcome part keys w _ l)
