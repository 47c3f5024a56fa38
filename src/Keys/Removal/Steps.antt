-- ===== src/Keys/Removal/Steps.antt =====
-- secrets/rnp/rnpkeys.cpp: the two ways in which `RnpKeys::removeSecret` removes.
use sailfish_crypto_plugins.Common.{
  ℕ, String, ◌≡◌, refl, Bool, true, false, Option, none, some, ◌++◌, ◌||◌, if◌then◌else◌,
}
use sailfish_crypto_plugins.Host.{Host, Ret, ok, err}
use sailfish_crypto_plugins.Machine.{World, Ptr, deref, Keyring, Rnp}
use sailfish_crypto_plugins.Rnp.Key.{Key}
use sailfish_crypto_plugins.Rnp.Key.Subkeys.{subkey_at, subkey-Gives, destroy_lem}
use sailfish_crypto_plugins.Rnp.Key.Removal.{
  removal, left_by, is_null, remove_lem, remove-Loads, destroy_left,
}
use sailfish_crypto_plugins.Rnp.Key.Handles.{own, leaked, destroy-Loads}
use sailfish_crypto_plugins.Rnp.KeyAccess.{remove_key}
use sailfish_crypto_plugins.Rnp.Ring.Laws.{public_keyring_cached}
use sailfish_crypto_plugins.Keys.Outcome.{Result, succeeded, failed, database_error}
use sailfish_crypto_plugins.Keys.Removal.{remove_from_public, remove_whole, remove_subkey}

-- Is nothing left of what the removal was asked for: librnp removed it, or there was nothing.
abbrev pub is_gone : {T : Type 0} → Ret Unit → Option T → Bool
is_gone (ok _) r = true
is_gone (err c) none = true
is_gone (err c) (some r) = false

is_null-left_by :
    {T : Type 0} (r : Ret Unit) (p : Ptr T) → is_null (left_by r p) ≡ is_gone r (deref p)
is_null-left_by (ok _) p = refl
is_null-left_by (err c) none = refl
is_null-left_by (err c) (some h) = refl

-- The plugin after the removal.
abbrev pub marked : Rnp → Keyring → Bool → Rnp
marked r kr removed = record r {
  public_keyring = some (record kr { modified = removed || kr.modified });
}

abbrev pub report_whole : Host → String → Bool → Result
report_whole H name removed =
    if removed then succeeded else failed database_error (H.string_arg "cannot delete key %1." name)

abbrev pub report_subkey : Host → String → Bool → Result
report_subkey H name removed =
    if removed
    then succeeded
    else failed database_error (H.string_arg "cannot delete subkey %1." name)

module _ {H : Host} (kr : Keyring) where
  -- The state after the removal of `r`.
  abbrev pub after : World H → Option H.KeyRef → ℕ → World H
  after w r n = record w {
    rnp = marked w.rnp kr (is_gone (removal H w.ffi r).0 r);
    ffi = (removal H w.ffi r).1;
    next = n;
  }

  remove_from_public_lem :
      (k : Key H) (w : World H) (n : ℕ)
      → w.rnp.public_keyring ≡ some kr
      → let r = removal H w.ffi (deref k.m_key) in
        remove_from_public k (record w { next = n; live = own k.m_key ++ w.live }) ≡ (
          (is_gone r.0 (deref k.m_key), record k { m_key = left_by r.0 k.m_key }),
          record (after w (deref k.m_key) n) { live = own (left_by r.0 k.m_key) ++ w.live },
        )
  unfolding remove_from_public remove_key
  remove_from_public_lem k w n e =
      rw (← is_null-left_by (removal H w.ffi (deref k.m_key)).0 k.m_key) (
        rw (public_keyring_cached kr (record w { next = n; live = own k.m_key ++ w.live }) e)
          (rw (remove_lem k w n)))

  remove_from_public-Loads :
      (k : Key H) (w : World H) (n : ℕ)
      → w.rnp.public_keyring ≡ some kr
      → let r = removal H w.ffi (deref k.m_key) in
        remove_from_public k (record w { next = n; live = leaked k ++ (own k.m_key ++ w.live) }) ≡ (
          (is_gone r.0 (deref k.m_key), record k { m_key = left_by r.0 k.m_key }),
          record (after w (deref k.m_key) n) {
            live = leaked k ++ (own (left_by r.0 k.m_key) ++ w.live);
          },
        )
  unfolding remove_from_public remove_key
  remove_from_public-Loads k w n e =
      rw (← is_null-left_by (removal H w.ffi (deref k.m_key)).0 k.m_key) (
        rw
          (public_keyring_cached kr
            (record w { next = n; live = leaked k ++ (own k.m_key ++ w.live) }) e)
          (rw (remove-Loads k w n)))

  pub remove_whole_lem :
      (name : String) (k : Key H) (w : World H) (n : ℕ)
      → w.rnp.public_keyring ≡ some kr
      → remove_whole name k (record w { next = n; live = leaked k ++ (own k.m_key ++ w.live) }) ≡ (
        report_whole H name (is_gone (removal H w.ffi (deref k.m_key)).0 (deref k.m_key)),
        record (after w (deref k.m_key) n) { live = leaked k ++ w.live },
      )
  unfolding remove_whole
  remove_whole_lem name k w n e =
      rw (remove_from_public-Loads k w n e)
        (rw (destroy_left k (removal H w.ffi (deref k.m_key)).0 (after w (deref k.m_key) n) n))

  pub remove_subkey_lem :
      (name : String) (k : Key H) (w : World H) (n : ℕ)
      → w.rnp.public_keyring ≡ some kr
      → let r = subkey_at H w.ffi (deref k.m_key) (deref k.m_primary) name in
        (m : ℕ) × (remove_subkey name k
            (record w { next = n; live = leaked k ++ (own k.m_key ++ w.live) })
          ≡ (
            report_subkey H name (is_gone (removal H w.ffi r).0 r),
            record (after w r m) { live = leaked k ++ w.live },
          ))
  unfolding remove_subkey
  remove_subkey_lem name k w n e =
      let w1 = record w { next = n; live = leaked k ++ (own k.m_key ++ w.live) } in
      let g = subkey-Gives k name w1 in
      (
        g.next,
        rw (← g.refers) (
            rw g.run (
              rw (remove_from_public_lem g.key w1 g.next e) (
                rw
                  (destroy_lem
                    (record g.key {
                      m_key = left_by (removal H w.ffi (deref g.key.m_key)).0 g.key.m_key;
                    })
                    (record (after w (deref g.key.m_key) g.next) { live = w1.live }) g.next)
                  (rw (destroy-Loads k (after w (deref g.key.m_key) g.next) g.next))))),
      )
