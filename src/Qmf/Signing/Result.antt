-- ===== src/Qmf/Signing/Result.antt =====
-- qmf/rnp/plugin.cpp: `QMailCryptoRNP::sign` as a whole, against a description without handles.
use mathlib.Core.Bool.{true≢false}
use sailfish_crypto_plugins.Common.{
  ℕ, String, ◌≡◌, refl, sym, ap, ◌∙◌, Bool, true, false, Option, none, some, List, [], ◌∷◌, ◌++◌,
  map, map-append, Bool-cases, Option-cases, inl, inr, if◌then◌else◌,
}
use sailfish_crypto_plugins.Host.{Host, Bytes}
use sailfish_crypto_plugins.Machine.{
  World, Rnp, Resource, Ptr, deref, release, release_ptr, give_back, handle, key_handle, Kind,
}
use sailfish_crypto_plugins.Rnp.Key.{Key, null_key, destroy}
use sailfish_crypto_plugins.Rnp.KeyArray.Result.{first_keys, keys_read}
use sailfish_crypto_plugins.Rnp.Ring.{destruct}
use sailfish_crypto_plugins.Rnp.Ring.Laws.{closed, destruct_lem}
use sailfish_crypto_plugins.Rnp.Sign.Operation.{signed, sign_lem}
use sailfish_crypto_plugins.Qmf.Canonical.{canonicalize}
use sailfish_crypto_plugins.Qmf.Mail.{Mail}
use sailfish_crypto_plugins.Qmf.Summary.{SignatureResult, key_missing}
use sailfish_crypto_plugins.Qmf.Signing.{destroy_signers, sign_with, sign_loaded, signed_part, sign}
use sailfish_crypto_plugins.Qmf.Signing.Outcome.{
  looked_up, message_of, signed_of, ending, signed_result, loaded_signers,
}
use sailfish_crypto_plugins.Qmf.Signing.Signers.{refs_of, all_there, signer_at, LoadsAll}

-- The keys before the first that is missing.
abbrev pub present : {R : Type 0} → List (Option R) → List R
present [] = []
present (r ∷ rest) = first_keys r (present rest)

present_ended : {R : Type 0} (rs : List (Option R)) → present (rs ++ none ∷ []) ≡ present rs
present_ended [] = refl
present_ended (none ∷ rs) = refl
present_ended (some r ∷ rs) = ap (λ rest. r ∷ rest) (present_ended rs)

keys_read-present : {H : Host} (keys : List (Key H)) → keys_read keys ≡ present (refs_of keys)
keys_read-present [] = refl
keys_read-present (k ∷ keys) = rw (keys_read-present keys) refl

-- The end of the function: the `Rnp` object is destroyed.
abbrev pub closing : (H : Host) → Rnp → H.State → H.State
closing H r s = H.ffi_destroy (closed H r r.secret_keyring (closed H r r.public_keyring s))

abbrev pub Ended : Host → Mail → Type 0
Ended H m = (SignatureResult × Option m.Part) × H.State

module _ (H : Host) (m : Mail) (part : m.Part) where
  -- The keys that librnp has for the fingerprints sign the canonical text of the part to sign.
  abbrev pub finished : Rnp → Bytes × H.State → Ended H m
  finished r (bytes, t) = (ending m part bytes, closing H r t)

  abbrev pub signed_by_all : List String → Rnp × H.State → Ended H m
  signed_by_all keys (r, t) =
      if all_there H t keys
      then finished r
          (signed H t (canonicalize (message_of m part)) (present (map (signer_at H t) keys)) true)
      else ((key_missing, some part), closing H r t)

  abbrev pub signing : List String → H.State → Ended H m
  signing keys s = signed_by_all keys (looked_up H keys s)

module _ {H : Host} where
  -- What is given back or not does not concern the plugin's members or librnp's state.
  SameRest : World H → World H → Type 0
  SameRest w w' = (w'.rnp ≡ w.rnp) × (w'.ffi ≡ w.ffi)

  release-SameRest : (r : Resource) (w : World H) → SameRest w (release r w).1
  unfolding SameRest release
  release-SameRest r w = elim (Option-cases (give_back r w.live)) [
    | inl e ↦ rw e (refl, refl)
    | inr (xs, e) ↦ rw e (refl, refl)
  ]

  release_ptr-SameRest :
      {T : Type 0} (k : Kind) (p : Ptr T) (w : World H) → SameRest w (release_ptr k p w).1
  unfolding SameRest release_ptr
  release_ptr-SameRest k none w = (refl, refl)
  release_ptr-SameRest k (some h) w = release-SameRest (handle k h.addr) w

  destroy_signers-SameRest :
      (keys : List (Key H)) (w : World H) → SameRest w (destroy_signers keys w).1
  unfolding SameRest destroy_signers destroy
  destroy_signers-SameRest [] w = (refl, refl)
  destroy_signers-SameRest (k ∷ keys) w =
      let w1 = (destroy_signers keys w).1 in
      let (a, b) = destroy_signers-SameRest keys w in
      let (c, d) = release_ptr-SameRest key_handle k.m_key w1 in (c ∙ a, d ∙ b)

  destruct-SameRest : (w w' : World H) → SameRest w w' → destruct w' ≡ closing H w.rnp w.ffi
  unfolding SameRest
  destruct-SameRest w w' (a, b) =
      destruct_lem w' ∙ (ap (λ r. closing H r w'.ffi) a ∙ ap (λ s. closing H w.rnp s) b)

module _ (H : Host) (m : Mail) where
  -- The function from its loop's result.
  abbrev ends : m.Part → (List (Key H) × Bool) × World H → Ended H m
  ends part out = let (r, w) = sign_loaded m part out.0 out.1 in ((r.0, some r.1), destruct w)

  held :
      (w : World H) (keys : List String) (signers : List (Key H))
      → refs_of signers ≡ map (signer_at H w.ffi) keys
      → keys_read (signers ++ null_key ∷ []) ≡ present (map (signer_at H w.ffi) keys)
  held w keys signers e =
      keys_read-present (signers ++ null_key ∷ [])
      ∙ (rw (map-append (λ (k : Key H). deref k.m_key) signers (null_key ∷ []))
            (present_ended (refs_of signers))
          ∙ ap present e)

  ends_there :
      (part : m.Part) (keys : List String) (w : World H) (signers : List (Key H)) (n : ℕ)
      (live : List Resource)
      → refs_of signers ≡ map (signer_at H w.ffi) keys
      → ends part ((signers, true), record w { next = n; live = live })
        ≡ finished H m part w.rnp (
            signed H w.ffi
              (canonicalize (message_of m part))
              (present (map (signer_at H w.ffi) keys))
              true)
  unfolding sign_loaded sign_with
  ends_there part keys w signers n live e =
      let w1 = record w { next = n; live = live } in
      let (k, run) =
        sign_lem (canonicalize (message_of m part)) (signers ++ null_key ∷ []) true w1 in
      let all_read = keys_read (signers ++ null_key ∷ []) in
      let (b, t) = signed H w.ffi (canonicalize (message_of m part)) all_read true in
      let w2 = record w1 { ffi = t; next = k } in
      ap
        (λ (o : Bytes × World H). (
          (
            (signed_part m (signed_of m part) part o.0).0,
            some (signed_part m (signed_of m part) part o.0).1,
          ),
          destruct (destroy_signers signers o.1).1,
        ))
        run
      ∙ (ap (λ r. (r, destruct (destroy_signers signers w2).1)) (signed_result H m part b)
          ∙ (ap (λ s. (ending m part b, s))
                (destruct-SameRest w2 _ (destroy_signers-SameRest signers w2))
              ∙ ap
                  (λ ks.
                    finished H m part w.rnp
                      (signed H w.ffi (canonicalize (message_of m part)) ks true))
                  (held w keys signers e)))

  ends_missing :
      (part : m.Part) (w : World H) (signers : List (Key H))
      → ends part ((signers, false), w) ≡ ((key_missing, some part), closing H w.rnp w.ffi)
  unfolding sign_loaded
  ends_missing part w signers =
      ap (λ s. ((key_missing, some part), s))
        (destruct-SameRest w _ (destroy_signers-SameRest signers w))

  ends_loaded :
      (part : m.Part) (keys : List String) (w : World H) (out : (List (Key H) × Bool) × World H)
      → LoadsAll w [] keys out
      → ends part out ≡ signed_by_all H m part keys (w.rnp, w.ffi)
  ends_loaded part keys w out l =
      ap (ends part) l.run ∙ (elim (Bool-cases (all_there H w.ffi keys)) [
        | inl there ↦ rw there (
            ends_there part keys w l.signers l.next l.live (elim l.complete [
              | inl absent ↦ absurd (true≢false (sym there ∙ absent))
              | inr all_held ↦ all_held
            ]))
        | inr missing ↦
            rw missing (ends_missing part (record w { next = l.next; live = l.live }) l.signers)
      ])

  -- With the secret key ring loaded, if any key is asked for, `sign` looks up the keys of the
  -- fingerprints. If librnp lacks one, it returns MissingKey and the part is as it was. Else `Rnp::sign`
  -- signs the canonical text of the part to sign, armored, by all of them in the order of the
  -- fingerprints: where this gives no bytes, `sign` returns UnknownError and the part is as it was, and
  -- where it gives some, `sign` returns SignatureValid and the part with the text and the signature.
  -- At the end the rings that were opened are closed, and librnp is.
  pub sign_result :
      (part : m.Part) (keys : List String) (s : H.State)
      → sign H m (some part) keys s ≡ signing H m part keys s
  unfolding sign
  sign_result part keys s =
      let (w, (e, l)) = loaded_signers {H = H} keys s in
      ends_loaded part keys w _ l ∙ ap (signed_by_all H m part keys) e
