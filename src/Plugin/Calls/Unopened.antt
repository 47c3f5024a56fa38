-- ===== src/Plugin/Calls/Unopened.antt =====
-- secrets/rnp/rnpkeys.h: what the methods of `RnpKeys` do where the public key ring cannot be loaded.
use sailfish_crypto_plugins.Common.{
  ◌≡◌, refl, ap, ◌∙◌, false, some, List, [], ◌∷◌, map, str_eq, if◌then◌else◌,
}
use sailfish_crypto_plugins.Host.{Host}
use sailfish_crypto_plugins.Machine.{World, Rnp, Keyring}
use sailfish_crypto_plugins.Keys.Outcome.{
  succeeded, unopened, create_collection, is_collection_locked, derive_key_from_code,
  set_encryption_key, reencrypt, set_secret, get_secret, set_standalone_secret, access_secret,
  reencrypt_secret,
}
use sailfish_crypto_plugins.Keys.Collections.Laws.{collection_names-unopened, secret_names-unopened}
use sailfish_crypto_plugins.Keys.Search.Laws.{find_secrets-unopened}
use sailfish_crypto_plugins.Keys.Removal.{remove_collection, remove_standalone_secret}
use sailfish_crypto_plugins.Keys.Removal.Laws.{remove_secret-unopened}
use sailfish_crypto_plugins.Plugin.Calls.{
  KeysCall, call_collection_names, call_create_collection, call_remove_collection,
  call_is_collection_locked, call_derive_key_from_code, call_set_encryption_key, call_reencrypt,
  call_set_secret, call_get_secret, call_secret_names, call_find_secrets, call_remove_secret,
  call_set_standalone_secret, call_access_secret, call_remove_standalone_secret,
  call_reencrypt_secret, of_keys, Reply, of_secrets, of_names, of_locked, of_secret_identifiers,
  run_keys, run_call, run_calls,
}

-- What a method answers without the ring; those that do not use it answer as ever.
abbrev pub refused : Host → Rnp → KeysCall → Reply
refused H r call_collection_names = of_names (unopened H r, [])
refused H r (call_secret_names name) =
    of_names (if str_eq name "import" then succeeded else unopened H r, [])
refused H r (call_find_secrets name filter op) = of_secret_identifiers (unopened H r, [])
refused H r (call_remove_secret collection name) =
    of_secrets (if str_eq collection "import" then succeeded else unopened H r)
refused H r (call_remove_collection name) =
    of_secrets (if str_eq name "import" then succeeded else unopened H r)
refused H r (call_remove_standalone_secret name) = of_secrets (unopened H r)
refused H r (call_create_collection name key) = of_secrets (create_collection name key)
refused H r (call_is_collection_locked name locked) = of_locked (is_collection_locked name locked)
refused H r (call_derive_key_from_code code salt) = of_secrets (derive_key_from_code code salt)
refused H r (call_set_encryption_key name key) = of_secrets (set_encryption_key name key)
refused H r (call_reencrypt name oldkey newkey) = of_secrets (reencrypt name oldkey newkey)
refused H r (call_set_secret collection name secret filter) =
    of_secrets (set_secret collection name secret filter)
refused H r (call_get_secret collection name) = of_secrets (get_secret collection name)
refused H r (call_set_standalone_secret name secret filter key) =
    of_secrets (set_standalone_secret name secret filter key)
refused H r (call_access_secret name key) = of_secrets (access_secret name key)
refused H r (call_reencrypt_secret name oldkey newkey) =
    of_secrets (reencrypt_secret name oldkey newkey)

module _ {H : Host} (kr : Keyring) (w : World H) (stored : w.rnp.public_keyring ≡ some kr)
    (invalid : kr.valid ≡ false) where
  run_keys_unopened : (c : KeysCall) → run_keys c w ≡ (refused H w.rnp c, w)
  unfolding run_keys remove_collection remove_standalone_secret
  run_keys_unopened call_collection_names =
      ap (λ o. (of_names o.0, o.1)) (collection_names-unopened kr w stored invalid)
  run_keys_unopened (call_secret_names name) =
      ap (λ o. (of_names o.0, o.1)) (secret_names-unopened kr w stored invalid name)
  run_keys_unopened (call_find_secrets name filter op) =
      ap (λ o. (of_secret_identifiers o.0, o.1))
        (find_secrets-unopened op filter name kr w stored invalid)
  run_keys_unopened (call_remove_secret collection name) =
      ap (λ o. (of_secrets o.0, o.1)) (remove_secret-unopened kr w stored invalid collection name)
  run_keys_unopened (call_remove_collection name) =
      ap (λ o. (of_secrets o.0, o.1)) (remove_secret-unopened kr w stored invalid name "")
  run_keys_unopened (call_remove_standalone_secret name) =
      ap (λ o. (of_secrets o.0, o.1)) (remove_secret-unopened kr w stored invalid "" name)
  run_keys_unopened (call_create_collection name key) = refl
  run_keys_unopened (call_is_collection_locked name locked) = refl
  run_keys_unopened (call_derive_key_from_code code salt) = refl
  run_keys_unopened (call_set_encryption_key name key) = refl
  run_keys_unopened (call_reencrypt name oldkey newkey) = refl
  run_keys_unopened (call_set_secret collection name secret filter) = refl
  run_keys_unopened (call_get_secret collection name) = refl
  run_keys_unopened (call_set_standalone_secret name secret filter key) = refl
  run_keys_unopened (call_access_secret name key) = refl
  run_keys_unopened (call_reencrypt_secret name oldkey newkey) = refl

  -- Where the public key ring could not be loaded, the methods of `RnpKeys`, whichever are called and
  -- in any order, change nothing at all: nothing is asked of librnp and the load is not tried again.
  -- Those that list, search or remove fail with a database error that names the path of the rings,
  -- but for the collection "import", whose listing and removal succeed without the ring, the listing
  -- with no names.
  pub run_calls_unopened :
      (cs : List KeysCall) → run_calls (map of_keys cs) w ≡ (map (refused H w.rnp) cs, w)
  unfolding run_calls run_call
  run_calls_unopened [] = refl
  run_calls_unopened (c ∷ cs) =
      ap (λ (o : Reply × World H). let (rs, w') = run_calls (map of_keys cs) o.1 in (o.0 ∷ rs, w'))
        (run_keys_unopened c)
      ∙ ap (λ (o : List Reply × World H). (refused H w.rnp c ∷ o.0, o.1)) (run_calls_unopened cs)
