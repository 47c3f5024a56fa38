-- ===== src/Keys/Search/Laws.antt =====
-- secrets/rnp/rnpkeys.cpp: which collections `RnpKeys::findSecrets` searches.
use sailfish_crypto_plugins.Common.{String, ◌≡◌, refl, false, some, List, [], str_eq}
use sailfish_crypto_plugins.Host.{Host}
use sailfish_crypto_plugins.Machine.{World, Keyring}
use sailfish_crypto_plugins.Rnp.Ring.Laws.{public_keyring_cached}
use sailfish_crypto_plugins.Keys.Outcome.{not_opened_lem, unopened}
use sailfish_crypto_plugins.Keys.Matching.{FilterOperator}
use sailfish_crypto_plugins.Keys.Search.{find_secrets, search_in, searched}

-- A search in any collection but "import" does not depend on the collection: it searches the keys
-- of all of them, and gives the same identifiers for each name.
pub find_secrets_ignores :
    {H : Host} (operator : FilterOperator) (filter : List (String × String)) (a b : String)
    (w : World H)
    → str_eq a "import" ≡ false
    → str_eq b "import" ≡ false
    → find_secrets operator filter a w ≡ find_secrets operator filter b w
unfolding find_secrets search_in searched
find_secrets_ignores op filter a b w e f = rw (e, f)

-- Where the public key ring could not be loaded, the search fails.
pub find_secrets-unopened :
    {H : Host} (operator : FilterOperator) (filter : List (String × String)) (name : String)
    (kr : Keyring) (w : World H)
    → w.rnp.public_keyring ≡ some kr
    → kr.valid ≡ false
    → find_secrets operator filter name w ≡ ((unopened H w.rnp, []), w)
unfolding find_secrets search_in
find_secrets-unopened op filter name kr w stored invalid =
    rw (public_keyring_cached kr w stored) (rw invalid (rw (not_opened_lem kr w stored) refl))
