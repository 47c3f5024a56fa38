-- ===== src/Rnp/Verify/Signatures.antt =====
-- rnp/rnp.cpp: what `toSignature` makes of librnp's answers.
use sailfish_crypto_plugins.Common.{
  ℕ, zero, suc, ◌+◌, String, ◌≡◌, refl, ◌∙◌, Option, none, some, List, [], ◌∷◌, ◌++◌, if◌then◌else◌,
  Bool-cases, inl, inr, append-nil, append_assoc,
}
use sailfish_crypto_plugins.Host.{
  Host, Ret, ok, err, Code, key_not_found, signature_expired, signature_invalid, other,
}
use sailfish_crypto_plugins.Machine.{
  World, Handle, key_handle, sig_handle, handle, buffer, given, given_text, release, release_ptr,
  new_handle, ◌>>=◌,
}
use sailfish_crypto_plugins.Machine.Ledger.{Quiet, release_head, release_second}
use sailfish_crypto_plugins.Rnp.Key.{is_yes}
use sailfish_crypto_plugins.Rnp.Key.Fingerprints.{text_of, take_text_lem}
use sailfish_crypto_plugins.Rnp.Verify.{
  Signature, missing_key, unknown, status_of, missing_texts, without_key, located_keyid,
  subkey_keyid, text_or, key_id, with_key, keyed_signature, to_signature, append_signature,
  append_signatures, counted_signatures, signatures_of,
}

abbrev missing_at : (H : Host) → H.State → Ret H.SigRef → Signature
missing_at H s (err c) = record { status = missing_key; keyid = ""; fingerprint = "" }
missing_at H s (ok sig) = record {
  status = missing_key;
  keyid = text_of H (H.sig_get_keyid sig s);
  fingerprint = text_of H (H.sig_get_key_fprint sig s);
}

-- The key id where the primary is found.
abbrev pub located_id : (H : Host) → H.State → H.KeyRef → Ret (Option H.KeyRef) → String
located_id H s key (err c) = ""
located_id H s key (ok r) = text_of H (H.key_get_keyid (some key) s)

abbrev pub subkey_id : (H : Host) → H.State → H.KeyRef → Ret String → String
subkey_id H s key (err c) = ""
subkey_id H s key (ok fp) = located_id H s key (H.locate_key "fingerprint" fp s)

-- A key's id: for a key that is not a primary, it is empty unless its primary is found.
abbrev id_at : (H : Host) → H.State → H.KeyRef → String
id_at H s key =
    if is_yes (H.key_is_primary (some key) s)
    then text_of H (H.key_get_keyid (some key) s)
    else subkey_id H s key (H.key_get_primary_fprint (some key) s)

abbrev pub replaced : (H : Host) → String → Ret String → String
replaced H fp (err c) = fp
replaced H fp (ok t) = H.from_latin1 t

abbrev keyless_at : (H : Host) → H.State → H.VerifySig → Code → Signature
keyless_at H s vsig key_not_found = missing_at H s (H.signature_get_handle vsig s)
keyless_at H s vsig _ = record { status = unknown; keyid = ""; fingerprint = "" }

abbrev keyed_at : (H : Host) → H.State → H.VerifySig → Ret H.KeyRef → Signature
keyed_at H s vsig (err c) = keyless_at H s vsig c
keyed_at H s vsig (ok key) = record {
  status = status_of (H.signature_get_status vsig s);
  keyid = id_at H s key;
  fingerprint =
      replaced H (text_of H (H.key_get_fprint (some key) s))
        (H.key_get_primary_fprint (some key) s);
}

-- What a signature says, from librnp's state. With a key, it has the status that librnp gives, the
-- key's id, and its primary's fingerprint or else its own.
abbrev pub signature_at : (H : Host) → H.State → H.VerifySig → Signature
signature_at H s vsig = keyed_at H s vsig (H.signature_get_key vsig s)

module _ {H : Host} where
  missing_texts_lem :
      (r : Ret H.SigRef) (w : World H)
      → let (g, w') = given sig_handle r w in
        (n : ℕ) × (missing_texts g w' ≡ (missing_at H w.ffi r, record w { next = n }))
  unfolding missing_texts
  missing_texts_lem (err c) w = (w.next, refl)
  missing_texts_lem (ok sig) w =
      let w1 = (new_handle sig_handle sig w).1 in
      (
        suc w.next,
        rw (take_text_lem (H.sig_get_keyid sig w.ffi) w1) (
            rw (take_text_lem (H.sig_get_key_fprint sig w.ffi) w1)
              (rw (release_head (handle sig_handle w.next) (record w { next = suc w.next })))),
      )

  text_or_lem :
      (fp : String) (r : Ret String) (w : World H)
      → text_or fp (given_text r w).0 (given_text r w).1 ≡ (replaced H fp r, w)
  unfolding text_or
  text_or_lem fp (err c) w = refl
  text_or_lem fp (ok t) w = rw (release_head (buffer t) w)

  subkey_found_lem :
      (key : Handle H.KeyRef) (q : Ret (Option H.KeyRef)) (fp : String) (w : World H)
      → (n : ℕ) × ((located_keyid key q >>= λ found.
              (λ w2. (found.1, (release_ptr key_handle found.0 (release (buffer fp) w2).1).1)))
            (record w { live = buffer fp ∷ w.live })
          ≡ (located_id H w.ffi key.obj q, record w { next = n }))
  unfolding located_keyid release_ptr
  subkey_found_lem key (err c) fp w = (w.next, rw (release_head (buffer fp) w))
  subkey_found_lem key (ok none) fp w = (
    w.next,
    rw
        (take_text_lem (H.key_get_keyid (some key.obj) w.ffi)
          (record w { live = buffer fp ∷ w.live }))
        (rw (release_head (buffer fp) w)),
  )
  subkey_found_lem key (ok (some r)) fp w = (
    suc w.next,
    rw
        (take_text_lem (H.key_get_keyid (some key.obj) w.ffi)
          (record w { next = suc w.next; live = handle key_handle w.next ∷ buffer fp ∷ w.live }))
        (rw
          (release_second (handle key_handle w.next) (buffer fp) (record w { next = suc w.next })
            refl)
          (rw (release_head (handle key_handle w.next) (record w { next = suc w.next })))),
  )

  subkey_keyid_lem :
      (key : Handle H.KeyRef) (r : Ret String) (w : World H)
      → (n : ℕ) × (subkey_keyid key (given_text r w).0 (given_text r w).1
          ≡ (subkey_id H w.ffi key.obj r, record w { next = n }))
  unfolding subkey_keyid
  subkey_keyid_lem key (err c) w = (w.next, refl)
  subkey_keyid_lem key (ok fp) w = subkey_found_lem key (H.locate_key "fingerprint" fp w.ffi) fp w

  key_id_lem : (key : Handle H.KeyRef) (w : World H) → Quiet (key_id key) w (id_at H w.ffi key.obj)
  unfolding key_id
  key_id_lem key w = elim (Bool-cases (is_yes (H.key_is_primary (some key.obj) w.ffi))) [
    | inl e ↦ rw e (w.next, take_text_lem _ w)
    | inr e ↦ rw e (subkey_keyid_lem key _ w)
  ]

  with_key_lem :
      (vsig : H.VerifySig) (key : H.KeyRef) (w : World H)
      → (n : ℕ) × (with_key vsig (new_handle key_handle key w).0 (new_handle key_handle key w).1
          ≡ (keyed_at H w.ffi vsig (ok key), record w { next = n }))
  unfolding with_key
  with_key_lem vsig key w =
      let (h, w1) = new_handle key_handle key w in
      let (n, e) = key_id_lem h w1 in
      let w2 = record w1 { next = n } in
      (
        n,
        rw (take_text_lem (H.key_get_fprint (some key) w.ffi) w1) (
            rw e (
              rw
                (text_or_lem (text_of H (H.key_get_fprint (some key) w.ffi))
                  (H.key_get_primary_fprint (some key) w.ffi) w2)
                (rw (release_head (handle key_handle w.next) (record w { next = n }))))),
      )

  without_key_lem :
      (vsig : H.VerifySig) (c : Code) (w : World H)
      → Quiet (without_key vsig c) w (keyless_at H w.ffi vsig c)
  unfolding without_key
  without_key_lem vsig key_not_found w = missing_texts_lem _ w
  without_key_lem vsig signature_expired w = (w.next, refl)
  without_key_lem vsig signature_invalid w = (w.next, refl)
  without_key_lem vsig (other n) w = (w.next, refl)

  keyed_signature_lem :
      (vsig : H.VerifySig) (r : Ret H.KeyRef) (w : World H)
      → let (g, w') = given key_handle r w in
        (n : ℕ) × (keyed_signature vsig g w' ≡ (keyed_at H w.ffi vsig r, record w { next = n }))
  unfolding keyed_signature
  keyed_signature_lem vsig (err c) w = without_key_lem vsig c w
  keyed_signature_lem vsig (ok key) w = with_key_lem vsig key w

  -- `toSignature` reports, for a signature whose key librnp has, the status that librnp gives, the
  -- fingerprint of the key's primary or else the key's, and the key's own id, which is empty for a
  -- subkey whose primary is not found; for a key that librnp misses, the id and the fingerprint that
  -- the signature itself names; and nothing for any other failure. It gives back every handle and
  -- buffer that it took, none of them twice, and changes nothing else.
  pub to_signature_lem :
      (vsig : H.VerifySig) (w : World H) → Quiet (to_signature vsig) w (signature_at H w.ffi vsig)
  unfolding to_signature
  to_signature_lem vsig w = keyed_signature_lem vsig _ w

abbrev signature_entry : (H : Host) → H.State → Ret H.VerifySig → List Signature
signature_entry H s (err c) = []
signature_entry H s (ok vsig) = signature_at H s vsig ∷ []

-- The `n` signatures of an operation from the `i`-th on; one that librnp does not give is left out.
abbrev signatures_from : (H : Host) → H.State → H.VerifyOp → ℕ → ℕ → List Signature
signatures_from H s op zero i = []
signatures_from H s op (suc n) i =
    signature_entry H s (H.op_verify_get_signature_at op i s) ++ signatures_from H s op n (i + 1)

abbrev counted_at : (H : Host) → H.State → H.VerifyOp → Ret ℕ → List Signature
counted_at H s op (err c) = []
counted_at H s op (ok n) = signatures_from H s op n 0

abbrev pub signatures_at : (H : Host) → H.State → H.VerifyOp → List Signature
signatures_at H s op = counted_at H s op (H.op_verify_get_signature_count op s)

module _ {H : Host} where
  append_signature_lem :
      (ret : List Signature) (r : Ret H.VerifySig) (w : World H)
      → Quiet (append_signature ret r) w (ret ++ signature_entry H w.ffi r)
  unfolding append_signature
  append_signature_lem ret (err c) w = (w.next, rw (append-nil ret))
  append_signature_lem ret (ok vsig) w = let (n, e) = to_signature_lem vsig w in (n, rw e)

  append_signatures_lem :
      (op : H.VerifyOp) (n i : ℕ) (ret : List Signature) (w : World H)
      → Quiet (append_signatures op n i ret) w (ret ++ signatures_from H w.ffi op n i)
  unfolding append_signatures
  append_signatures_lem op zero i ret w = (w.next, rw (append-nil ret))
  append_signatures_lem op (suc n) i ret w =
      let q = H.op_verify_get_signature_at op i w.ffi in
      let (m, e) = append_signature_lem ret q w in
      let (p, f) =
        append_signatures_lem op n (i + 1) (ret ++ signature_entry H w.ffi q)
          (record w { next = m }) in
      (p, rw e (f ∙ rw (append_assoc ret (signature_entry H w.ffi q))))

  counted_signatures_lem :
      (op : H.VerifyOp) (ret : List Signature) (r : Ret ℕ) (w : World H)
      → Quiet (counted_signatures op ret r) w (ret ++ counted_at H w.ffi op r)
  unfolding counted_signatures
  counted_signatures_lem op ret (err c) w = (w.next, rw (append-nil ret))
  counted_signatures_lem op ret (ok n) w = append_signatures_lem op n 0 ret w

  -- The loop over an operation's signatures appends those that librnp gives, in its order, and leaves
  -- nothing open.
  pub signatures_of_lem :
      (op : H.VerifyOp) (ret : List Signature) (w : World H)
      → Quiet (signatures_of op ret) w (ret ++ signatures_at H w.ffi op)
  unfolding signatures_of
  signatures_of_lem op ret w = counted_signatures_lem op ret _ w
