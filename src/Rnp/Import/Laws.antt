-- ===== src/Rnp/Import/Laws.antt =====
-- rnp/rnp.cpp: what `Rnp::importKeys` returns and leaves.
use sailfish_crypto_plugins.Common.{ℕ, suc, String, ◌≡◌, refl, List, []}
use sailfish_crypto_plugins.Host.{Host, Ret, ok, err, Bytes}
use sailfish_crypto_plugins.Machine.{World, handle, buffer, input, given, Rnp}
use sailfish_crypto_plugins.Machine.Ledger.{release_head, release_second, Does}
use sailfish_crypto_plugins.Rnp.Ring.Opened.{
  public_opened, secret_opened, public_keyring_lem, secret_keyring_lem,
}
use sailfish_crypto_plugins.Rnp.Import.{free_json, import_from_input, import_keys}

-- librnp's state after the import.
abbrev imported_from : (H : Host) → Ret H.Input × H.State → H.State
imported_from H (err c, s) = s
imported_from H (ok i, s) = (H.import_keys i s).1

-- Both rings are opened if need be, then librnp imports what it takes from the bytes.
abbrev pub imported : (H : Host) → Rnp → H.State → Bytes → List String × Rnp × H.State
imported H r s bytes =
    let (r1, s1) = public_opened H r s in
    let (r2, s2) = secret_opened H r1 s1 in ([], r2, imported_from H (H.input_from_memory bytes s2))

module _ {H : Host} where
  import_called :
      (i : H.Input) (q : Ret String × H.State) (s : H.State) (w : World H)
      → H.import_keys i s ≡ q
      → let (g, w') = given input (ok i) (record w { ffi = s }) in
        import_from_input g w' ≡ ([], record w { ffi = q.1; next = suc w.next })
  unfolding import_from_input free_json
  import_called i (err c, s') s w e =
      rw e (rw (release_head (handle input w.next) (record w { ffi = s'; next = suc w.next })))
  import_called i (ok json, s') s w e =
      let w' = record w { ffi = s'; next = suc w.next } in
      rw e (
        rw (release_second (buffer json) (handle input w.next) w' refl)
          (rw (release_head (buffer json) w')))

  import_from_input_lem :
      (q : Ret H.Input × H.State) (w : World H)
      → let (g, w') = given input q.0 (record w { ffi = q.1 }) in
        (n : ℕ) × (import_from_input g w' ≡ ([], record w { ffi = imported_from H q; next = n }))
  unfolding import_from_input
  import_from_input_lem (err c, s) w = (w.next, refl)
  import_from_input_lem (ok i, s) w = (suc w.next, import_called i _ s w refl)

  -- `Rnp::importKeys` opens the two key rings if need be and has librnp import the keys; whatever that
  -- gives, it returns the empty list and leaves both rings as they were opened, not modified by it.
  -- It frees the input and the text that librnp returns, each once.
  pub import_keys-Does :
      (bytes : Bytes) (w : World H) → Does w (imported H w.rnp w.ffi bytes) (import_keys bytes w)
  unfolding import_keys
  import_keys-Does bytes w =
      let (n, e) = public_keyring_lem w in
      let (r1, s1) = public_opened H w.rnp w.ffi in
      let w1 = record w { rnp = r1; ffi = s1; next = n } in
      let (m, f) = secret_keyring_lem w1 in
      let (r2, s2) = secret_opened H r1 s1 in
      let (p, g) =
        import_from_input_lem (H.input_from_memory bytes s2)
          (record w1 { rnp = r2; ffi = s2; next = m }) in
      (p, rw e (rw f g))
