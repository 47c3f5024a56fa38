-- ===== src/Rnp/Export.antt =====
-- rnp/rnp.cpp, `Rnp::Key::toCryptoKey`: a key as Sailfish sees it.
pub mod UserIds
pub mod Described
pub mod Exported
pub mod Titles
use sailfish_crypto_plugins.Common.{
  ℕ, zero, suc, ◌+◌, String, true, Option, List, [], ◌∷◌, ◌++◌, str_eq, insert, if◌then◌else◌,
}
use sailfish_crypto_plugins.Host.{
  Host, Ret, ok, err, CryptoKey, Algorithm, algorithm_rsa, algorithm_dsa, algorithm_unknown,
  origin_unknown,
}
use sailfish_crypto_plugins.Machine.{
  M, Handle, deref, buffer, uid_handle, release, pure, query, fetch, fetch_text, ◌>>=◌, ◌>>◌,
}
use sailfish_crypto_plugins.Rnp.Key.{Key, fingerprint, keyid, is_valid, is_yes}

-- Sailfish::Crypto::Key::setFilterData
abbrev pub set_filter_data : String → String → CryptoKey → CryptoKey
set_filter_data field value k = record k { filter_data = insert field value k.filter_data }

-- A lifetime in seconds, which is zero if the key does not expire.
pub set_expiration : (H : Host) → Ret ℕ → CryptoKey → CryptoKey
set_expiration H (err c) k = k
set_expiration H (ok zero) k = set_filter_data "Expired" "false" k
set_expiration H (ok (suc e)) k =
    set_filter_data "Expire-Date" (H.date_of_msecs (suc e)) (set_filter_data "Expired" "true" k)

pub set_creation : (H : Host) → Ret ℕ → CryptoKey → CryptoKey
set_creation H (err c) k = k
set_creation H (ok zero) k = k
set_creation H (ok (suc c)) k = set_filter_data "Creation-Date" (H.date_of_msecs (suc c)) k

pub set_size : Ret ℕ → CryptoKey → CryptoKey
set_size (err c) k = k
set_size (ok n) k = record k { size = n }

pub named_algorithm : String → Algorithm
named_algorithm algo =
    if str_eq algo "RSA"
    then algorithm_rsa
    else if str_eq algo "DSA"
    then algorithm_dsa
    else algorithm_unknown

module _ {H : Host} where
  append_email : List String → Ret String → M H (List String)
  append_email emails (err c) = pure emails
  append_email emails (ok text) = do
    let email = H.from_utf8 text
    release (buffer text)
    pure (emails ++ email ∷ [])

  visit_uid : Option H.KeyRef → ℕ → List String → Ret (Handle H.Uid) → M H (List String)
  unfolding append_email
  visit_uid primary i emails (err c) = pure emails
  visit_uid primary i emails (ok uid) = do
    is_user_id ← query (H.uid_is_user_id uid.obj)
    if is_yes is_user_id
        then (fetch_text (H.key_get_uid_at primary i) >>= append_email emails)
        else pure emails

  -- The loop over the user ids from the `i`-th on, with the rounds that are left.
  visit_uids : Option H.KeyRef → ℕ → ℕ → List String → M H (List String)
  unfolding visit_uid
  visit_uids primary zero i emails = pure emails
  visit_uids primary (suc rounds) i emails = do
    emails' ← fetch uid_handle (H.key_get_uid_handle_at primary i) >>= visit_uid primary i emails
    visit_uids primary rounds (i + 1) emails'

  counted_uids : Option H.KeyRef → Ret ℕ → M H (List String)
  unfolding visit_uids
  counted_uids primary (err c) = pure []
  counted_uids primary (ok n) = visit_uids primary n 0 []

  -- The texts of the user ids.
  pub user_ids : Option H.KeyRef → M H (List String)
  unfolding counted_uids
  user_ids primary = query (H.key_get_uid_count primary) >>= counted_uids primary

  set_algorithm : CryptoKey → Ret String → M H CryptoKey
  unfolding named_algorithm
  set_algorithm k (err c) = pure k
  set_algorithm k (ok algo) = do
    let algorithm = named_algorithm algo
    release (buffer algo)
    pure (record k { algorithm = algorithm })

  filled_key : String → Key H → M H CryptoKey
  unfolding set_expiration set_creation set_size set_algorithm user_ids
  filled_key plugin_name k = do
    name ← fingerprint k
    collection_name ← keyid k
    public_key ← fingerprint k
    emails ← user_ids (deref k.m_primary)
    expiration ← query (H.key_get_expiration (deref k.m_key))
    creation ← query (H.key_get_creation (deref k.m_key))
    count ← query (H.key_get_subkey_count (deref k.m_primary))
    let named = record H.new_crypto_key {
      name = name;
      collection_name = collection_name;
      storage_plugin_name = plugin_name;
      public_key = H.to_latin1 public_key;
      private_key = "Rnp";
    }
    let dated =
        set_creation H creation
          (set_expiration H expiration (set_filter_data "User-Emails" (H.join_commas emails) named))
    let sized = set_size count (record dated { origin = origin_unknown })
    typed ← fetch_text (H.key_get_alg (deref k.m_key)) >>= set_algorithm sized
    encrypts ← query (H.key_allows_usage (deref k.m_key) "encrypt")
    signs ← query (H.key_allows_usage (deref k.m_key) "sign")
    pure (record typed {
      operations = record {
        can_verify = true;
        can_decrypt = true;
        can_encrypt = is_yes encrypts;
        can_sign = is_yes signs;
      };
    })

  -- Rnp::Key::toCryptoKey(const QString &pluginName)
  unfoldable pub to_crypto_key : String → Key H → M H CryptoKey
  unfolding filled_key
  to_crypto_key plugin_name k =
      if is_valid k then filled_key plugin_name k else pure H.new_crypto_key
