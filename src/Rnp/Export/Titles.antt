-- ===== src/Rnp/Export/Titles.antt =====
-- rnp/rnp.cpp, `Rnp::Key::toCryptoKey`: how an exported key is named.
use sailfish_crypto_plugins.Common.{String, ◌≡◌, refl, ◌∙◌, Option, List, [], ◌∷◌, insert}
use sailfish_crypto_plugins.Host.{Host, Ret, ok, err, CryptoKey}
use sailfish_crypto_plugins.Rnp.Key.Fingerprints.{fingerprint_at, keyid_at}
use sailfish_crypto_plugins.Rnp.Export.Described.{
  typed_at, named_at, entries_at, with_entries, sized_at, exported,
}

-- What a key is looked up by, and the plugin that it is of.
abbrev pub titles : CryptoKey → String × String × String
titles k = (k.collection_name, k.name, k.storage_plugin_name)

titles-with_entries :
    (entries : List (String × String)) (k : CryptoKey) → titles (with_entries entries k) ≡ titles k
titles-with_entries [] k = refl
titles-with_entries ((field, value) ∷ rest) k =
    titles-with_entries rest (record k { filter_data = insert field value k.filter_data })

titles-typed_at : (r : Ret String) (k : CryptoKey) → titles (typed_at r k) ≡ titles k
titles-typed_at (err c) k = refl
titles-typed_at (ok algo) k = refl

pub titles-exported :
    (H : Host) (s : H.State) (plugin_name : String) (key primary : Option H.KeyRef)
    → titles (exported H s plugin_name key primary)
      ≡ (keyid_at H s primary, fingerprint_at H s key, plugin_name)
titles-exported H s plugin_name key primary =
    titles-typed_at (H.key_get_alg key s) (sized_at H s plugin_name key primary)
    ∙ titles-with_entries (entries_at H s key primary) (named_at H s plugin_name key primary)
