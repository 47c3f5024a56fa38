-- ===== src/Rnp/Key/Removal.antt =====
-- rnp/rnp.cpp: what `Key::remove` asks of librnp, and what it reports.
use sailfish_crypto_plugins.Common.{
  ◌≡◌, refl, Bool, true, false, Option, none, some, ℕ, ◌++◌, arith,
}
use sailfish_crypto_plugins.Host.{Host, Ret, ok, err, RemoveFlags}
use sailfish_crypto_plugins.Machine.{World, Ptr, deref, release_ptr}
use sailfish_crypto_plugins.Rnp.Key.{Key, is_yes, remove, after_remove, destroy}
use sailfish_crypto_plugins.Rnp.Key.Handles.{own, leaked, released-Loads}
use sailfish_crypto_plugins.Rnp.Key.Subkeys.{ptr_released}

-- The public half always, the secret half if there is one, the subkeys if the key is a primary.
abbrev pub flags_of : (H : Host) → H.State → Option H.KeyRef → RemoveFlags
flags_of H s r = record {
  public = true;
  secret = is_yes (H.key_have_secret r s);
  subkeys = is_yes (H.key_is_primary r s);
}

-- librnp's answer to the removal of what the pointer refers to, and the state after it.
abbrev pub removal : (H : Host) → H.State → Option H.KeyRef → Ret Unit × H.State
removal H s r = H.key_remove r (flags_of H s r) s

-- The pointer after the call: librnp's success makes it null.
abbrev pub left_by : {T : Type 0} → Ret Unit → Ptr T → Ptr T
left_by (ok _) p = none
left_by (err c) p = p

abbrev pub is_null : {T : Type 0} → Ptr T → Bool
is_null none = true
is_null (some h) = false

module _ {H : Host} where
  after_remove_lem :
      (k : Key H) (r : Ret Unit) (w : World H) (n : ℕ)
      → after_remove k r (record w { next = n; live = own k.m_key ++ w.live }) ≡ (
        (is_null (left_by r k.m_key), record k { m_key = left_by r k.m_key }),
        record w { next = n; live = own (left_by r k.m_key) ++ w.live },
      )
  unfolding after_remove
  after_remove_lem k (ok _) w n = rw (ptr_released k.m_key w n)
  after_remove_lem k (err c) w n = ground arith

  -- On a key whose handle was taken last, `Key::remove` asks librnp to remove the key with the
  -- secret half that it has and, for a primary, its subkeys. If librnp does so, the handle is given
  -- back once and the key is null; if not, the key keeps its handle. It reports whether the key
  -- is null after the call.
  pub remove_lem :
      (k : Key H) (w : World H) (n : ℕ)
      → let r = removal H w.ffi (deref k.m_key) in
        remove k (record w { next = n; live = own k.m_key ++ w.live }) ≡ (
          (is_null (left_by r.0 k.m_key), record k { m_key = left_by r.0 k.m_key }),
          record w { ffi = r.1; next = n; live = own (left_by r.0 k.m_key) ++ w.live },
        )
  unfolding remove
  remove_lem k w n = after_remove_lem k _ (record w { ffi = (removal H w.ffi (deref k.m_key)).1 }) n

  after_remove-Loads :
      (k : Key H) (r : Ret Unit) (w : World H) (n : ℕ)
      → after_remove k r (record w { next = n; live = leaked k ++ (own k.m_key ++ w.live) }) ≡ (
        (is_null (left_by r k.m_key), record k { m_key = left_by r k.m_key }),
        record w { next = n; live = leaked k ++ (own (left_by r k.m_key) ++ w.live) },
      )
  unfolding after_remove
  after_remove-Loads k (ok _) w n = rw (released-Loads k.m_key k.m_primary w n)
  after_remove-Loads k (err c) w n = ground arith

  -- The same for a key that was loaded with its primary.
  pub remove-Loads :
      (k : Key H) (w : World H) (n : ℕ)
      → let r = removal H w.ffi (deref k.m_key) in
        remove k (record w { next = n; live = leaked k ++ (own k.m_key ++ w.live) }) ≡ (
          (is_null (left_by r.0 k.m_key), record k { m_key = left_by r.0 k.m_key }),
          record w {
            ffi = r.1;
            next = n;
            live = leaked k ++ (own (left_by r.0 k.m_key) ++ w.live);
          },
        )
  unfolding remove
  remove-Loads k w n =
      after_remove-Loads k _ (record w { ffi = (removal H w.ffi (deref k.m_key)).1 }) n

  -- The destructor of what such a removal leaves.
  pub destroy_left :
      (k : Key H) (r : Ret Unit) (w : World H) (n : ℕ)
      → destroy
          (record k { m_key = left_by r k.m_key })
          (record w { next = n; live = leaked k ++ (own (left_by r k.m_key) ++ w.live) })
        ≡ (tt, record w { next = n; live = leaked k ++ w.live })
  unfolding destroy release_ptr
  destroy_left k (ok _) w n = refl
  destroy_left k (err c) w n = released-Loads k.m_key k.m_primary w n
