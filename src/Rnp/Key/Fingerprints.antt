-- ===== src/Rnp/Key/Fingerprints.antt =====
-- rnp/rnp.cpp: what `Key::fingerprint`, `Key::keyid` and `Key::fingerprints` return.
use sailfish_crypto_plugins.Common.{
  ℕ, zero, suc, ◌+◌, String, ◌≡◌, refl, ◌∙◌, Option, none, some, List, [], ◌∷◌, ◌++◌, Bool-cases,
  inl, inr, if◌then◌else◌, append_assoc, append-nil,
}
use sailfish_crypto_plugins.Host.{Host, Ret, ok, err}
use sailfish_crypto_plugins.Machine.{
  World, Handle, given, given_text, buffer, handle, Ptr, deref, key_handle,
}
use sailfish_crypto_plugins.Machine.Ledger.{release_head, Quiet}
use sailfish_crypto_plugins.Rnp.Key.{
  Key, take_text, ptr_fingerprint, ptr_keyid, keyid, fingerprint, fingerprints, is_own_primary,
  primary_fprints, counted_fprints, subkey_fprints, subkey_fprint, append_fprint,
}

-- The text that a successful query yields, and the empty text if it fails.
abbrev pub text_of : (H : Host) → Ret String → String
text_of H (ok s) = H.from_latin1 s
text_of H (err c) = ""

-- A key's fingerprint, from librnp's state.
abbrev pub fingerprint_at : (H : Host) → H.State → Option H.KeyRef → String
fingerprint_at H s none = ""
fingerprint_at H s (some r) = text_of H (H.key_get_fprint (some r) s)

abbrev pub keyid_at : (H : Host) → H.State → Option H.KeyRef → String
keyid_at H s none = ""
keyid_at H s (some r) = text_of H (H.key_get_keyid (some r) s)

abbrev fprint_entry : (H : Host) → Ret String → List String
fprint_entry H (ok s) = H.from_latin1 s ∷ []
fprint_entry H (err c) = []

abbrev subkey_entry : (H : Host) → H.State → Ret H.KeyRef → List String
subkey_entry H s (ok r) = fprint_entry H (H.key_get_fprint (some r) s)
subkey_entry H s (err c) = []

-- The fingerprints of the `n` subkeys of `r` from the `i`-th on; a subkey that fails is left out.
abbrev pub subkeys_at : (H : Host) → H.State → H.KeyRef → ℕ → ℕ → List String
subkeys_at H s r zero i = []
subkeys_at H s r (suc n) i =
    subkey_entry H s (H.key_get_subkey_at (some r) i s) ++ subkeys_at H s r n (i + 1)

module _ {H : Host} where
  pub take_text_lem :
      (r : Ret String) (w : World H)
      → take_text (given_text r w).0 (given_text r w).1 ≡ (text_of H r, w)
  unfolding take_text
  take_text_lem (ok s) w = rw (release_head (buffer s) w)
  take_text_lem (err c) w = refl

  ptr_fingerprint_lem :
      (k : Ptr H.KeyRef) (w : World H) → ptr_fingerprint k w ≡ (fingerprint_at H w.ffi (deref k), w)
  unfolding ptr_fingerprint
  ptr_fingerprint_lem none w = refl
  ptr_fingerprint_lem (some h) w = take_text_lem _ w

  pub fingerprint_lem :
      (k : Key H) (w : World H) → fingerprint k w ≡ (fingerprint_at H w.ffi (deref k.m_key), w)
  unfolding fingerprint
  fingerprint_lem k w = ptr_fingerprint_lem k.m_key w

  ptr_keyid_lem : (p : Ptr H.KeyRef) (w : World H) → ptr_keyid p w ≡ (keyid_at H w.ffi (deref p), w)
  unfolding ptr_keyid
  ptr_keyid_lem none w = refl
  ptr_keyid_lem (some p) w = take_text_lem _ w

  pub keyid_lem : (k : Key H) (w : World H) → keyid k w ≡ (keyid_at H w.ffi (deref k.m_primary), w)
  unfolding keyid
  keyid_lem k w = ptr_keyid_lem k.m_primary w

  append_fprint_lem :
      (fps : List String) (r : Ret String) (w : World H)
      → append_fprint fps (given_text r w).0 (given_text r w).1 ≡ (fps ++ fprint_entry H r, w)
  unfolding append_fprint
  append_fprint_lem fps (ok s) w = rw (release_head (buffer s) w)
  append_fprint_lem fps (err c) w = rw (append-nil fps)

  subkey_fprint_lem :
      (fps : List String) (r : Ret H.KeyRef) (w : World H)
      → let (g, w') = given key_handle r w in
        subkey_fprint fps g w' ≡ (fps ++ subkey_entry H w.ffi r, record w { next = w'.next })
  unfolding subkey_fprint
  subkey_fprint_lem fps (ok k) w = rw (
    append_fprint_lem fps (H.key_get_fprint (some k) w.ffi),
    release_head (handle key_handle w.next) (record w { next = suc w.next }),
  )
  subkey_fprint_lem fps (err c) w = rw (append-nil fps)

  subkey_fprints_lem :
      (p : Handle H.KeyRef) (n i : ℕ) (fps : List String) (w : World H)
      → Quiet (subkey_fprints p n i fps) w (fps ++ subkeys_at H w.ffi p.obj n i)
  unfolding subkey_fprints
  subkey_fprints_lem p zero i fps w = (w.next, rw (append-nil fps))
  subkey_fprints_lem p (suc n) i fps w =
      let q = H.key_get_subkey_at (some p.obj) i w.ffi in
      let (next, e) =
        subkey_fprints_lem p n (i + 1) (fps ++ subkey_entry H w.ffi q)
          (record w { next = (given key_handle q w).1.next }) in
      (next, rw (subkey_fprint_lem fps q w) (e ∙ rw (append_assoc fps (subkey_entry H w.ffi q))))

abbrev pub counted_at : (H : Host) → H.State → H.KeyRef → Ret ℕ → List String
counted_at H s r (ok n) = subkeys_at H s r n 0
counted_at H s r (err c) = []

abbrev pub primary_at : (H : Host) → H.State → Option H.KeyRef → List String
primary_at H s none = []
primary_at H s (some r) = counted_at H s r (H.key_get_subkey_count (some r) s)

-- A key's own fingerprint, and behind that of a primary key those of its subkeys.
abbrev pub fingerprints_at : (H : Host) → H.State → Key H → List String
fingerprints_at H s k =
    fingerprint_at H s (deref k.m_key)
    ∷ (if is_own_primary k.m_key k.m_primary then primary_at H s (deref k.m_primary) else [])

module _ {H : Host} where
  primary_fprints_lem :
      (p : Ptr H.KeyRef) (fp : String) (w : World H)
      → Quiet (primary_fprints p (fp ∷ [])) w (fp ∷ primary_at H w.ffi (deref p))
  unfolding primary_fprints
  primary_fprints_lem none fp w = (w.next, refl)
  primary_fprints_lem (some p) fp w = counted (H.key_get_subkey_count (some p.obj) w.ffi)
    where
      counted :
          (r : Ret ℕ) → Quiet (counted_fprints p (fp ∷ []) r) w (fp ∷ counted_at H w.ffi p.obj r)
      counted (ok n) = subkey_fprints_lem p n 0 (fp ∷ []) w
      counted (err c) = (w.next, refl)

  -- `Key::fingerprints` lists the key's own fingerprint, then those of its subkeys if the key is its
  -- own primary, leaving out each subkey that librnp does not give; it gives back every handle and
  -- buffer that it took, none of them twice, and changes nothing else.
  pub fingerprints_lem :
      (k : Key H) (w : World H) → Quiet (fingerprints k) w (fingerprints_at H w.ffi k)
  unfolding fingerprints
  fingerprints_lem k w =
      rw (fingerprint_lem k w) (elim (Bool-cases (is_own_primary k.m_key k.m_primary)) [
        | inl own ↦ rw own (primary_fprints_lem k.m_primary _ w)
        | inr other ↦ rw other (w.next, refl)
      ])
