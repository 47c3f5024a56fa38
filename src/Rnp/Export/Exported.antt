-- ===== src/Rnp/Export/Exported.antt =====
-- rnp/rnp.cpp, `Rnp::Key::toCryptoKey`, against a description without handles.
use sailfish_crypto_plugins.Common.{
  ℕ, zero, suc, String, ◌≡◌, refl, ap, Option, none, some, List, [], ◌++◌, length, ◌∙◌, sym,
}
use sailfish_crypto_plugins.Host.{Host, Ret, ok, err, CryptoKey, origin_unknown}
use sailfish_crypto_plugins.Machine.{World, Ptr, deref, buffer, given_text}
use sailfish_crypto_plugins.Machine.Ledger.{release_head}
use sailfish_crypto_plugins.Rnp.Key.{Key}
use sailfish_crypto_plugins.Rnp.Key.Fingerprints.{fingerprint_lem, keyid_lem}
use sailfish_crypto_plugins.Rnp.Export.{
  set_filter_data, set_expiration, set_creation, set_size, named_algorithm, set_algorithm,
  filled_key, to_crypto_key,
}
use sailfish_crypto_plugins.Rnp.Export.UserIds.{uids, user_ids_at, open_uids_at, user_ids-Lists}
use sailfish_crypto_plugins.Rnp.Export.Described.{
  algorithms, algorithm_in, typed_at, named_at, expiration_entries, creation_entries, entries_at,
  with_entries, size_at, with_operations, sized_at, exported, exported_of, open_uids_of,
}

named_algorithm_lem : (algo : String) → named_algorithm algo ≡ algorithm_in algorithms algo
unfolding named_algorithm
named_algorithm_lem algo = refl

set_expiration_lem :
    (H : Host) (r : Ret ℕ) (entries : List (String × String)) (k : CryptoKey)
    → with_entries (expiration_entries H r ++ entries) k
      ≡ with_entries entries (set_expiration H r k)
unfolding set_expiration
set_expiration_lem H (err c) entries k = refl
set_expiration_lem H (ok zero) entries k = refl
set_expiration_lem H (ok (suc e)) entries k = refl

set_creation_lem :
    (H : Host) (r : Ret ℕ) (k : CryptoKey)
    → with_entries (creation_entries H r) k ≡ set_creation H r k
unfolding set_creation
set_creation_lem H (err c) k = refl
set_creation_lem H (ok zero) k = refl
set_creation_lem H (ok (suc c)) k = refl

set_size_lem : (r : Ret ℕ) (k : CryptoKey) → set_size r k ≡ record k { size = size_at r k.size }
unfolding set_size
set_size_lem (err c) k = refl
set_size_lem (ok n) k = refl

module _ (H : Host) (s : H.State) (key primary : Option H.KeyRef) where
  dated_lem :
      (k : CryptoKey)
      → set_creation H (H.key_get_creation key s) (
          set_expiration H
            (H.key_get_expiration key s)
            (set_filter_data "User-Emails" (H.join_commas (user_ids_at H s primary)) k))
        ≡ with_entries (entries_at H s key primary) k
  dated_lem k =
      let k1 = set_filter_data "User-Emails" (H.join_commas (user_ids_at H s primary)) k in
      let created = creation_entries H (H.key_get_creation key s) in
      sym (
        set_expiration_lem H (H.key_get_expiration key s) created k1
        ∙ set_creation_lem H (H.key_get_creation key s) _)

  sized_lem :
      (plugin_name : String)
      → set_size
          (H.key_get_subkey_count primary s)
          (record (set_creation H (H.key_get_creation key s) (
            set_expiration H (H.key_get_expiration key s) (
              set_filter_data "User-Emails"
                (H.join_commas (user_ids_at H s primary))
                (named_at H s plugin_name key primary)))) { origin = origin_unknown })
        ≡ sized_at H s plugin_name key primary
  sized_lem plugin_name =
      set_size_lem (H.key_get_subkey_count primary s) _
      ∙ ap
          (λ (dated : CryptoKey). record dated {
            origin = origin_unknown;
            size = size_at (H.key_get_subkey_count primary s) dated.size;
          })
          (dated_lem (named_at H s plugin_name key primary))

module _ {H : Host} where
  -- What an action on `w` gave is the key; it left `n` handles of user ids open, and nothing else.
  pub record Exports (w : World H) (v : CryptoKey) (n : ℕ) (out : CryptoKey × World H)
      : Type 0 where
    pub addrs : List ℕ
    pub next : ℕ
    pub run : out ≡ (v, record w { next = next; live = uids addrs ++ w.live })
    pub counted : length addrs ≡ n

  set_algorithm_lem :
      (k : CryptoKey) (r : Ret String) (w : World H)
      → let (g, w') = given_text r w in set_algorithm k g w' ≡ (typed_at r k, w)
  unfolding set_algorithm
  set_algorithm_lem k (ok algo) w =
      rw (release_head (buffer algo) w)
        (ap (λ a. (record k { algorithm = a }, w)) (named_algorithm_lem algo))
  set_algorithm_lem k (err c) w = refl

  filled_key-Exports :
      (plugin_name : String) (k : Key H) (w : World H)
      → Exports w
          (exported H w.ffi plugin_name (deref k.m_key) (deref k.m_primary))
          (open_uids_at H w.ffi (deref k.m_primary))
          (filled_key plugin_name k w)
  unfolding filled_key
  filled_key-Exports plugin_name k w =
      let l = user_ids-Lists (deref k.m_primary) w in
      let w1 = record w { next = l.next; live = uids l.addrs ++ w.live } in
      record {
        addrs = l.addrs;
        next = l.next;
        run = rw (fingerprint_lem k w) (
            rw (keyid_lem k w) (
              rw (fingerprint_lem k w) (
                rw l.run (
                  rw (sized_lem H w.ffi (deref k.m_key) (deref k.m_primary) plugin_name) (
                    ap
                      (λ (p : CryptoKey × World H).
                        (with_operations H p.1.ffi (deref k.m_key) p.0, p.1))
                      (set_algorithm_lem
                        (sized_at H w.ffi plugin_name (deref k.m_key) (deref k.m_primary))
                        (H.key_get_alg (deref k.m_key) w.ffi) w1))))));
        counted = l.counted;
      }

  to_crypto_key_of_ptr :
      (plugin_name : String) (p q : Ptr H.KeyRef) (w : World H)
      → Exports w
          (exported_of H w.ffi plugin_name (deref p) (deref q))
          (open_uids_of H w.ffi (deref p) (deref q))
          (to_crypto_key plugin_name (record { m_key = p; m_primary = q }) w)
  unfolding to_crypto_key
  to_crypto_key_of_ptr plugin_name none q w = record {
    addrs = [];
    next = w.next;
    run = refl;
    counted = refl;
  }
  to_crypto_key_of_ptr plugin_name (some h) q w =
      filled_key-Exports plugin_name (record { m_key = some h; m_primary = q }) w

  -- `toCryptoKey` of a null key is a new key. Any other has the key's fingerprint for a name and as
  -- its public key, its primary's key id for a collection, its origin set to unknown, for a size what
  -- librnp counts of the primary's subkeys, RSA or DSA as librnp names the algorithm and unknown for
  -- any other name; it may verify and decrypt, and encrypt and sign where librnp allows the key that.
  -- To be filtered for, it has the texts of its primary's user ids without the images, "Expired",
  -- which is "false" for an expiration of zero and "true" for any other, and "Expire-Date" and
  -- "Creation-Date", which take the numbers that librnp gives, where they are not zero, for
  -- milliseconds since the epoch. What librnp fails to give is left as in a new key. It leaves one
  -- handle open for each user id that librnp hands out, gives back every other handle and buffer that
  -- it took, none of them twice, and changes nothing else.
  pub to_crypto_key-Exports :
      (plugin_name : String) (k : Key H) (w : World H)
      → Exports w
          (exported_of H w.ffi plugin_name (deref k.m_key) (deref k.m_primary))
          (open_uids_of H w.ffi (deref k.m_key) (deref k.m_primary))
          (to_crypto_key plugin_name k w)
  to_crypto_key-Exports plugin_name k w = to_crypto_key_of_ptr plugin_name k.m_key k.m_primary w
