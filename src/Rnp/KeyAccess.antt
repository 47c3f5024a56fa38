-- ===== src/Rnp/KeyAccess.antt =====
-- rnp/rnp.cpp, the methods of `Rnp::Keyring`.
pub mod Listing
pub mod Leaks
pub mod Stored
use sailfish_crypto_plugins.Common.{
  ℕ, String, Bool, true, false, Option, none, some, List, [], ◌∷◌, ◌++◌, str_eq, ◌||◌,
  if◌then◌else◌,
}
use sailfish_crypto_plugins.Host.{Host, Ret, ok, err}
use sailfish_crypto_plugins.Machine.{
  World, M, Handle, Ptr, deref, Resource, handle, buffer, iterator, key_handle, release,
  release_ptr, pure, get_rnp, query, call, fetch, fetch_text, ◌>>=◌, ◌>>◌, Keyring,
}
use sailfish_crypto_plugins.Rnp.Key.{
  Key, load, destroy, fingerprint, subkey, remove, is_yes, give_found,
}

module _ {H : Host} where
  append_keyid : List String → Ret String → M H (List String)
  append_keyid lst (ok id) = do release (buffer id); pure (lst ++ H.from_latin1 id ∷ [])
  append_keyid lst (err c) = pure lst

  append_primary : List String → Ptr H.KeyRef → M H (List String)
  unfolding append_keyid
  append_primary lst p = do
    primary ← query (H.key_is_primary (deref p))
    if is_yes primary
        then (fetch_text (H.key_get_keyid (deref p)) >>= append_keyid lst)
        else pure lst

  -- One round, from what rnp_locate_key gave; a key that was not found is a null handle.
  visit_key : List String → Ret (Option H.KeyRef) → M H (List String)
  unfolding append_primary release_ptr
  visit_key lst (err c) = pure lst
  visit_key lst (ok r) = do
    key ← give_found (ok r)
    lst' ← append_primary lst key
    release_ptr key_handle key
    pure lst'

  -- The loop over the iterator's answers: it ends at the first that fails.
  visit_keys : List (Ret String) → List String → M H (List String)
  unfolding visit_key
  visit_keys [] lst = pure lst
  visit_keys (err c ∷ rest) lst = pure lst
  visit_keys (ok fp ∷ rest) lst = do
    located ← query (H.locate_key "fingerprint" fp)
    lst' ← visit_key lst located
    visit_keys rest lst'

  iterate : Ret (Handle (List (Ret String))) → M H (List String)
  unfolding visit_keys
  iterate (err c) = pure []
  iterate (ok it) = do lst ← visit_keys it.obj []; release (handle iterator it.addr); pure lst

  -- Rnp::Keyring::keyids()
  unfoldable pub keyids : M H (List String)
  unfolding iterate
  keyids = fetch iterator (H.identifier_iterator_create "fingerprint") >>= iterate

  -- Rnp::Keyring::key(const QString &keyid)
  unfoldable pub key_of_keyid : String → M H (Key H)
  key_of_keyid keyid = load "keyid" keyid

  pub subkey_then_destroy : Key H → String → M H (Key H)
  subkey_then_destroy k fp = do sub ← subkey k fp; destroy k; pure sub

  -- Rnp::Keyring::key(const Sailfish::Crypto::Key &key), from the key's collection name and name.
  unfoldable pub key_of_crypto : String → String → M H (Key H)
  unfolding subkey_then_destroy
  key_of_crypto collection_name name = do
    k ← load "keyid" (H.to_upper collection_name)
    fp ← fingerprint k
    if str_eq fp (H.to_upper name) then pure k else subkey_then_destroy k (H.to_upper name)

  -- Rnp::Keyring::fromFingerprint(const QString &fp)
  unfoldable pub from_fingerprint : String → M H (Key H)
  from_fingerprint fp = load "fingerprint" fp

  -- Rnp::Keyring::remove(Rnp::Key &key), with the key and the key ring that it leaves.
  unfoldable pub remove_key : Keyring → Key H → M H (Bool × Key H × Keyring)
  remove_key kr key = do
    removed ← remove key
    pure (removed.0, removed.1, record kr { modified = removed.0 || kr.modified })
