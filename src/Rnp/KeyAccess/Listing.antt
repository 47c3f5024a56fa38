-- ===== src/Rnp/KeyAccess/Listing.antt =====
-- rnp/rnp.cpp: what `Keyring::keyids` lists.
use sailfish_crypto_plugins.Common.{
  ℕ, suc, String, ◌≡◌, refl, ◌∙◌, Option, none, some, List, [], ◌∷◌, ◌++◌, Bool-cases, inl, inr,
  if◌then◌else◌, append-nil, append_assoc,
}
use sailfish_crypto_plugins.Host.{Host, Ret, ok, err}
use sailfish_crypto_plugins.Machine.{
  World, Ptr, deref, handle, buffer, key_handle, iterator, given, given_text, new_handle,
}
use sailfish_crypto_plugins.Machine.Ledger.{Quiet, release_head}
use sailfish_crypto_plugins.Rnp.Key.{is_yes}
use sailfish_crypto_plugins.Rnp.KeyAccess.{
  append_keyid, append_primary, visit_key, visit_keys, iterate, keyids,
}

abbrev keyid_entry : (H : Host) → Ret String → List String
keyid_entry H (ok id) = H.from_latin1 id ∷ []
keyid_entry H (err c) = []

abbrev primary_entry : (H : Host) → H.State → Option H.KeyRef → List String
primary_entry H s r =
    if is_yes (H.key_is_primary r s) then keyid_entry H (H.key_get_keyid r s) else []

abbrev located_entry : (H : Host) → H.State → Ret (Option H.KeyRef) → List String
located_entry H s (ok r) = primary_entry H s r
located_entry H s (err c) = []

-- The key ids of the primary keys among those that the iterator names.
abbrev pub listed : (H : Host) → H.State → List (Ret String) → List String
listed H s [] = []
listed H s (err c ∷ rest) = []
listed H s (ok fp ∷ rest) = located_entry H s (H.locate_key "fingerprint" fp s) ++ listed H s rest

abbrev iterated : (H : Host) → H.State → Ret (List (Ret String)) → List String
iterated H s (ok names) = listed H s names
iterated H s (err c) = []

abbrev pub keyids_at : (H : Host) → H.State → List String
keyids_at H s = iterated H s (H.identifier_iterator_create "fingerprint" s)

module _ {H : Host} where
  append_keyid_lem :
      (lst : List String) (r : Ret String) (w : World H)
      → append_keyid lst (given_text r w).0 (given_text r w).1 ≡ (lst ++ keyid_entry H r, w)
  unfolding append_keyid
  append_keyid_lem lst (ok id) w = rw (release_head (buffer id) w)
  append_keyid_lem lst (err c) w = rw (append-nil lst)

  append_primary_lem :
      (lst : List String) (p : Ptr H.KeyRef) (w : World H)
      → append_primary lst p w ≡ (lst ++ primary_entry H w.ffi (deref p), w)
  unfolding append_primary
  append_primary_lem lst p w = elim (Bool-cases (is_yes (H.key_is_primary (deref p) w.ffi))) [
    | inl e ↦ rw e (append_keyid_lem lst _ w)
    | inr e ↦ rw e (rw (append-nil lst))
  ]

  visit_key_lem :
      (lst : List String) (q : Ret (Option H.KeyRef)) (w : World H)
      → Quiet (visit_key lst q) w (lst ++ located_entry H w.ffi q)
  unfolding visit_key
  visit_key_lem lst (ok none) w = (w.next, rw (append_primary_lem lst none w))
  visit_key_lem lst (ok (some r)) w = (
    suc w.next,
    rw (append_primary_lem lst (some (new_handle key_handle r w).0) (new_handle key_handle r w).1)
        (rw (release_head (handle key_handle w.next) (record w { next = suc w.next }))),
  )
  visit_key_lem lst (err c) w = (w.next, rw (append-nil lst))

  visit_keys_lem :
      (names : List (Ret String)) (lst : List String) (w : World H)
      → Quiet (visit_keys names lst) w (lst ++ listed H w.ffi names)
  unfolding visit_keys
  visit_keys_lem [] lst w = (w.next, rw (append-nil lst))
  visit_keys_lem (err c ∷ rest) lst w = (w.next, rw (append-nil lst))
  visit_keys_lem (ok fp ∷ rest) lst w =
      let q = H.locate_key "fingerprint" fp w.ffi in
      let (n, e) = visit_key_lem lst q w in
      let (m, f) = visit_keys_lem rest (lst ++ located_entry H w.ffi q) (record w { next = n }) in
      (m, rw e (f ∙ rw (append_assoc lst (located_entry H w.ffi q))))

  iterate_lem :
      (r : Ret (List (Ret String))) (w : World H)
      → let (it, w') = given iterator r w in
        (n : ℕ) × (iterate it w' ≡ (iterated H w.ffi r, record w { next = n }))
  unfolding iterate
  iterate_lem (err c) w = (w.next, refl)
  iterate_lem (ok names) w =
      let (n, e) = visit_keys_lem names [] (new_handle iterator names w).1 in
      (n, rw e (rw (release_head (handle iterator w.next) (record w { next = n }))))

  -- `Keyring::keyids` lists, in the iterator's order and up to its first failure, the key id of each
  -- primary key that librnp names, and no subkey's. It gives back the iterator and every handle and
  -- buffer that it took, none of them twice, and changes nothing else.
  pub keyids_lem : (w : World H) → Quiet keyids w (keyids_at H w.ffi)
  unfolding keyids
  keyids_lem w = iterate_lem _ w
