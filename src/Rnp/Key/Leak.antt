-- ===== src/Rnp/Key/Leak.antt =====
-- rnp/rnp.cpp: the handle that `Rnp::Key` does not give back.
use sailfish_crypto_plugins.Common.{suc, String, ◌≡◌, refl, false, some, ◌∷◌, arith}
use sailfish_crypto_plugins.Host.{Host, ok}
use sailfish_crypto_plugins.Machine.{World, handle, buffer, release_ptr, key_handle}
use sailfish_crypto_plugins.Machine.Ledger.{release_second}
use sailfish_crypto_plugins.Rnp.Key.{load, destroy, primary_by_fprint}

module _ {H : Host} where
  -- The destruction of a loaded subkey, whose primary librnp finds by its fingerprint, leaves one
  -- handle open that was not open before.
  subkey_leak :
      (kind value fp : String) (r p : H.KeyRef) (w : World H)
      → H.locate_key kind (H.to_latin1 value) w.ffi ≡ ok (some r)
      → H.key_is_primary (some r) w.ffi ≡ ok false
      → H.key_get_primary_fprint (some r) w.ffi ≡ ok fp
      → H.locate_key "fingerprint" fp w.ffi ≡ ok (some p)
      → let (k, w') = load kind value w in
        (destroy k w').1.live ≡ handle key_handle (suc w.next) ∷ w.live
  unfolding load primary_by_fprint destroy release_ptr
  subkey_leak kind value fp r p w e1 e2 e3 e4 = rw e1 (
      rw e2 (
        rw e3 (
          rw e4 (
            rw
              (release_second _ (buffer fp)
                (record w { next = suc (suc w.next); live = handle key_handle w.next ∷ w.live })
                refl)
              (rw (
                release_second (handle key_handle (suc w.next)) (handle key_handle w.next)
                  (record w { next = suc (suc w.next) }) (ground arith)))))))
