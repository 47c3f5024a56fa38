-- ===== src/Rnp/KeyAccess/Stored.antt =====
-- rnp/rnp.cpp: which key `Keyring::key` gives for a key of Sailfish's, and that it is the one that
-- `Key::toCryptoKey` was called on.
use sailfish_crypto_plugins.Common.{
  ℕ, String, ◌≡◌, ◌⊎◌, refl, sym, ap, ◌∙◌, true, all, false, Option, some, ◌++◌, length, str_eq,
  eq_refl, List, Bool-cases, inl, inr, if◌then◌else◌,
}
use sailfish_crypto_plugins.Host.{Host}
use sailfish_crypto_plugins.Machine.{World, Handle, Resource, deref}
use sailfish_crypto_plugins.Machine.Ledger.{is_of_key}
use sailfish_crypto_plugins.Rnp.Key.{Key, load, destroy}
use sailfish_crypto_plugins.Rnp.Key.Fingerprints.{fingerprint_at, keyid_at, fingerprint_lem}
use sailfish_crypto_plugins.Rnp.Key.Handles.{
  own, leaked, all-leaked, destroy-Loads, located, primary_of, load-Loads,
}
use sailfish_crypto_plugins.Rnp.Key.Subkeys.{subkey_at}
use sailfish_crypto_plugins.Rnp.Export.Described.{exported}
use sailfish_crypto_plugins.Rnp.Export.Exported.{to_crypto_key-Exports}
use sailfish_crypto_plugins.Rnp.Export.{to_crypto_key}
use sailfish_crypto_plugins.Rnp.Export.UserIds.{uids}
use sailfish_crypto_plugins.Rnp.Export.Titles.{titles-exported}
use sailfish_crypto_plugins.Rnp.KeyAccess.Leaks.{
  other_primaries, length-leaked, subkey_then_destroy-Swaps, loaded_leak,
}
use sailfish_crypto_plugins.Rnp.KeyAccess.{key_of_crypto}

-- The key of librnp's that has the key id, and what of it has the fingerprint.
abbrev among_key : (H : Host) → H.State → Option H.KeyRef → String → Option H.KeyRef
among_key H s r fp =
    if str_eq (fingerprint_at H s r) fp then r else subkey_at H s r (primary_of H s r) fp

abbrev pub stored_at : (H : Host) → H.State → String → String → Option H.KeyRef
stored_at H s collection_name name =
    among_key H s (located H s "keyid" (H.to_latin1 (H.to_upper collection_name))) (H.to_upper name)

module _ {H : Host} where
  -- What an action on `w` gave is a key for `r`; neither the plugin nor librnp's state has changed.
  -- The key's destructor gives back what was taken but for the handles in `left`: the one that the
  -- constructor takes for the primary of the collection's key, if that is another key.
  pub record Stored (collection_name : String) (w : World H) (r : Option H.KeyRef)
      (out : Key H × World H) : Type 0 where
    pub key : Key H
    pub next : ℕ
    pub live : List Resource
    pub left : List Resource
    pub run : out ≡ (key, record w { next = next; live = live })
    pub refers : deref key.m_key ≡ r
    pub of_keys : all is_of_key left ≡ true
    pub is_leak : left ≡ leaked (load "keyid" (H.to_upper collection_name) w).0
    pub counted :
        length left
        ≡ other_primaries H w.ffi
            (located H w.ffi "keyid" (H.to_latin1 (H.to_upper collection_name)))
    pub destroys :
        (s : H.State) (n : ℕ)
        → destroy key (record w { ffi = s; next = n; live = live })
          ≡ (tt, record w { ffi = s; next = n; live = left ++ w.live })

  -- `Keyring::key` of a key of Sailfish's gives the key that librnp has for its collection's name if
  -- its name is that key's fingerprint, and else that key's subkey with this fingerprint, both in
  -- capitals.
  pub key_of_crypto-Stored :
      (collection_name name : String) (w : World H)
      → Stored collection_name w
          (stored_at H w.ffi collection_name name)
          (key_of_crypto collection_name name w)
  unfolding key_of_crypto
  key_of_crypto-Stored collection_name name w =
      let l = load-Loads "keyid" (H.to_upper collection_name) w in
      let w1 = record w { next = l.next; live = leaked l.key ++ (own l.key.m_key ++ w.live) } in
      let e = fingerprint_lem l.key w1 in
      let fp = H.to_upper name in
      let sub = subkey_then_destroy-Swaps l.key fp w l.next l.taken in
      let is_leak = loaded_leak "keyid" (H.to_upper collection_name) w l in
      let counted =
        length-leaked w.ffi (located H w.ffi "keyid" (H.to_latin1 (H.to_upper collection_name)))
          l.key l.owns l.refers_primary in
      rw (← l.refers) (elim (Bool-cases (str_eq (fingerprint_at H w.ffi (deref l.key.m_key)) fp)) [
        | inl same ↦ rw same (record {
          key = l.key;
          next = l.next;
          live = w1.live;
          left = leaked l.key;
          of_keys = all-leaked l.key;
          is_leak = is_leak;
          counted = counted;
          run = rw l.run (rw e (rw same refl));
          refers = refl;
          destroys = λ s n. destroy-Loads l.key (record w { ffi = s }) n;
        })
        | inr other ↦ rw other (record {
          key = sub.key;
          next = sub.next;
          live = own sub.key.m_key ++ (leaked l.key ++ w.live);
          left = leaked l.key;
          of_keys = all-leaked l.key;
          is_leak = is_leak;
          counted = counted;
          destroys = sub.destroys;
          run = rw l.run (rw e (rw other sub.run));
          refers =
              sub.refers
              ∙ ap (λ p. subkey_at H w.ffi (deref l.key.m_key) p fp)
                  (l.refers_primary ∙ ap (primary_of H w.ffi) (sym l.refers));
        })
      ])

  module _ (r p : H.KeyRef) (w : World H) where
    -- librnp finds the primary by its key id, as a primary, and the key by its fingerprint, which is
    -- in capitals, as the primary itself or as a subkey of it.
    pub record IsListed : Type 0 where
      pub in_capitals :
          H.to_upper (fingerprint_at H w.ffi (some r)) ≡ fingerprint_at H w.ffi (some r)
      pub finds :
          located H w.ffi "keyid" (H.to_latin1 (H.to_upper (keyid_at H w.ffi (some p)))) ≡ some p
      pub is_primary : primary_of H w.ffi (some p) ≡ some p
      pub among :
          (r ≡ p)
          ⊎ ((str_eq (fingerprint_at H w.ffi (some p)) (fingerprint_at H w.ffi (some r)) ≡ false)
              × (subkey_at H w.ffi (some p) (some p) (fingerprint_at H w.ffi (some r)) ≡ some r))

    stored_again :
        IsListed
        → stored_at H w.ffi (keyid_at H w.ffi (some p)) (fingerprint_at H w.ffi (some r)) ≡ some r
    stored_again l = rw l.in_capitals (
        rw l.finds (elim l.among [
          | inl same ↦ rw same (rw (eq_refl (fingerprint_at H w.ffi (some p))) refl)
          | inr (other, e) ↦ rw other (rw l.is_primary e)
        ]))

    pub exported_again :
        (plugin_name : String)
        → IsListed
        → let e = exported H w.ffi plugin_name (some r) (some p) in
          stored_at H w.ffi e.collection_name e.name ≡ some r
    exported_again plugin_name l =
        let e = titles-exported H w.ffi plugin_name (some r) (some p) in
        rw (ap (λ t. t.0) e) (rw (ap (λ t. t.1) e) (stored_again l))

  -- If librnp lists a key, then `Keyring::key` of what `toCryptoKey` makes of it, for a primary as for
  -- a subkey, is a key for the same of librnp's. Once its destructor has run, whatever librnp's state
  -- has become, every handle that was taken is given back but for the one that the constructor takes
  -- for the primary of the collection's key, if librnp gives that key another primary than itself.
  pub crypto_key-key :
      (plugin_name : String) (key primary : Handle H.KeyRef) (w : World H)
      → IsListed key.obj primary.obj w
      → let (e, w') =
          to_crypto_key plugin_name (record { m_key = some key; m_primary = some primary }) w in
        Stored e.collection_name w' (some key.obj) (key_of_crypto e.collection_name e.name w')
  crypto_key-key plugin_name key primary w l =
      let x =
        to_crypto_key-Exports plugin_name (record { m_key = some key; m_primary = some primary })
          w in
      let e = exported H w.ffi plugin_name (some key.obj) (some primary.obj) in
      rw x.run (
        rw (exported_again key.obj primary.obj w plugin_name l) at (
          key_of_crypto-Stored e.collection_name e.name
            (record w { next = x.next; live = uids x.addrs ++ w.live })))
