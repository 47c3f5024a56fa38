-- ===== src/Rnp/Export/Described.antt =====
-- rnp/rnp.cpp, `Rnp::Key::toCryptoKey`: what the key is, described from librnp's state without handles.
use sailfish_crypto_plugins.Common.{
  ℕ, zero, suc, String, true, Option, none, some, List, [], ◌∷◌, ◌++◌, str_eq, insert,
  if◌then◌else◌,
}
use sailfish_crypto_plugins.Host.{
  Host, Ret, ok, err, CryptoKey, Algorithm, algorithm_rsa, algorithm_dsa, algorithm_unknown,
  origin_unknown,
}
use sailfish_crypto_plugins.Rnp.Key.{is_yes}
use sailfish_crypto_plugins.Rnp.Key.Fingerprints.{fingerprint_at, keyid_at}
use sailfish_crypto_plugins.Rnp.Export.UserIds.{user_ids_at, open_uids_at}

-- The algorithms that are known by librnp's name for them.
abbrev pub algorithms : List (String × Algorithm)
algorithms = ("RSA", algorithm_rsa) ∷ ("DSA", algorithm_dsa) ∷ []

abbrev pub algorithm_in : List (String × Algorithm) → String → Algorithm
algorithm_in [] algo = algorithm_unknown
algorithm_in ((name, algorithm) ∷ rest) algo =
    if str_eq algo name then algorithm else algorithm_in rest algo

-- The algorithm is set if librnp names one.
abbrev pub typed_at : Ret String → CryptoKey → CryptoKey
typed_at (err c) k = k
typed_at (ok algo) k = record k { algorithm = algorithm_in algorithms algo }

-- The texts that name the key and its collection.
abbrev pub named_at : (H : Host) → H.State → String → Option H.KeyRef → Option H.KeyRef → CryptoKey
named_at H s plugin_name key primary = record H.new_crypto_key {
  name = fingerprint_at H s key;
  collection_name = keyid_at H s primary;
  storage_plugin_name = plugin_name;
  public_key = H.to_latin1 (fingerprint_at H s key);
  private_key = "Rnp";
}

-- A lifetime of zero is no expiration. Any other number is written as if it were a date, in
-- milliseconds since the epoch.
abbrev pub expiration_entries : Host → Ret ℕ → List (String × String)
expiration_entries H (err c) = []
expiration_entries H (ok zero) = ("Expired", "false") ∷ []
expiration_entries H (ok (suc e)) =
    ("Expired", "true") ∷ ("Expire-Date", H.date_of_msecs (suc e)) ∷ []

abbrev pub creation_entries : Host → Ret ℕ → List (String × String)
creation_entries H (err c) = []
creation_entries H (ok zero) = []
creation_entries H (ok (suc c)) = ("Creation-Date", H.date_of_msecs (suc c)) ∷ []

-- What may be filtered for.
abbrev pub entries_at :
    (H : Host) → H.State → Option H.KeyRef → Option H.KeyRef → List (String × String)
entries_at H s key primary =
    ("User-Emails", H.join_commas (user_ids_at H s primary))
    ∷ (expiration_entries H (H.key_get_expiration key s)
        ++ creation_entries H (H.key_get_creation key s))

-- The key with the entries, the first of them set first.
abbrev pub with_entries : List (String × String) → CryptoKey → CryptoKey
with_entries [] k = k
with_entries ((field, value) ∷ rest) k =
    with_entries rest (record k { filter_data = insert field value k.filter_data })

-- The number of the primary's subkeys, if librnp counts them.
abbrev pub size_at : Ret ℕ → ℕ → ℕ
size_at (err c) size = size
size_at (ok n) size = n

abbrev pub with_operations : (H : Host) → H.State → Option H.KeyRef → CryptoKey → CryptoKey
with_operations H s key k = record k {
  operations = record {
    can_verify = true;
    can_decrypt = true;
    can_encrypt = is_yes (H.key_allows_usage key "encrypt" s);
    can_sign = is_yes (H.key_allows_usage key "sign" s);
  };
}

-- The key before its algorithm and operations.
abbrev pub sized_at : (H : Host) → H.State → String → Option H.KeyRef → Option H.KeyRef → CryptoKey
sized_at H s plugin_name key primary =
    let dated = with_entries (entries_at H s key primary) (named_at H s plugin_name key primary) in
    record dated {
      origin = origin_unknown;
      size = size_at (H.key_get_subkey_count primary s) dated.size;
    }

-- The key that Sailfish is given for a key of librnp's and its primary.
abbrev pub exported : (H : Host) → H.State → String → Option H.KeyRef → Option H.KeyRef → CryptoKey
exported H s plugin_name key primary =
    with_operations H s key (typed_at (H.key_get_alg key s) (sized_at H s plugin_name key primary))

-- A null key gives a new one.
abbrev pub exported_of :
    (H : Host) → H.State → String → Option H.KeyRef → Option H.KeyRef → CryptoKey
exported_of H s plugin_name none primary = H.new_crypto_key
exported_of H s plugin_name (some r) primary = exported H s plugin_name (some r) primary

abbrev pub open_uids_of : (H : Host) → H.State → Option H.KeyRef → Option H.KeyRef → ℕ
open_uids_of H s none primary = 0
open_uids_of H s (some r) primary = open_uids_at H s primary
