-- ===== src/Tests/LifetimeExamples.antt =====
-- secrets/rnp: the theorems on sequences of calls of the plugin at concrete inputs.
use sailfish_crypto_plugins.Common.{◌≡◌, ◌⊎◌, refl, true, false, none, some, List, [], ◌∷◌, map}
use sailfish_crypto_plugins.Machine.{World, Keyring, gpg_compat}
use sailfish_crypto_plugins.Keys.Outcome.{plugin_name, unopened}
use sailfish_crypto_plugins.Plugin.Calls.Unopened.{run_calls_unopened}
use sailfish_crypto_plugins.Keys.Matching.{operator_and}
use sailfish_crypto_plugins.Keys.Search.Found.{Leaves}
use sailfish_crypto_plugins.Ffi.Outcome.{succeeded}
use sailfish_crypto_plugins.Ffi.Operations.{stored_key_identifiers}
use sailfish_crypto_plugins.Ffi.Operations.Identifiers.{identifier, stored_key_identifiers-Leaves}
use sailfish_crypto_plugins.Rnp.Ring.{new_rnp}
use sailfish_crypto_plugins.Rnp.Ring.Laws.{closed}
use sailfish_crypto_plugins.Rnp.Ring.Sound.{only_unloaded, IsSound}
use sailfish_crypto_plugins.Plugin.{new_plugin, delete_plugin}
use sailfish_crypto_plugins.Plugin.Calls.{
  PluginCall, of_keys, of_ffi, call_collection_names, call_find_secrets, call_remove_secret,
  call_sign, of_names, of_secrets, run_calls,
}
use sailfish_crypto_plugins.Plugin.Calls.Listing.{
  Listing, list_collections, list_secrets, list_found, list_stored, call_of, answer,
  run_calls-Leaves,
}
use sailfish_crypto_plugins.Plugin.Lifetime.{new_plugin-IsSound, delete_plugin-run_calls}
use sailfish_crypto_plugins.Tests.Toy.{toy, toy_rnp, toy_ring, toy_world, empty_key}

abbrev toy_calls : List PluginCall
toy_calls =
    of_keys call_collection_names
    ∷ of_ffi (
        call_sign (7 ∷ [])
          (record empty_key {
            name = "S";
            collection_name = "P";
            storage_plugin_name = plugin_name;
          })
          (λ _. none) (some []))
    ∷ of_keys (call_find_secrets "none" [] operator_and)
    ∷ of_keys (call_remove_secret "P" "S")
    ∷ []

new_plugin-IsSound_example : IsSound true (run_calls toy_calls (new_plugin toy 0)).1
new_plugin-IsSound_example = new_plugin-IsSound toy 0 toy_calls

delete_plugin-run_calls_example :
    let w = (run_calls toy_calls (new_plugin toy 0)).1 in
    let public_closed = closed toy (new_rnp toy gpg_compat) w.rnp.public_keyring w.ffi in
    (delete_plugin w ≡ toy.ffi_destroy (only_unloaded toy w.rnp.secret_keyring public_closed))
    × ((true ≡ true) ⊎ (public_closed ≡ only_unloaded toy w.rnp.public_keyring w.ffi))
delete_plugin-run_calls_example = delete_plugin-run_calls toy 0 toy_calls

abbrev toy_listings : List Listing
toy_listings =
    list_collections
    ∷ list_secrets "P"
    ∷ list_found "none" [] operator_and
    ∷ list_stored "" []
    ∷ list_secrets "none"
    ∷ []

run_calls-Leaves_example :
    Leaves toy_world
      (map (answer toy 0) toy_listings)
      (run_calls (map call_of toy_listings) toy_world)
run_calls-Leaves_example = run_calls-Leaves toy_ring toy_listings toy_world refl refl

-- A collection that does not exist.
stored_key_identifiers-Leaves_example :
    Leaves toy_world
      (succeeded, identifier "none" "" ∷ [])
      (stored_key_identifiers "none" [] toy_world)
stored_key_identifiers-Leaves_example =
    stored_key_identifiers-Leaves toy_ring "none" [] toy_world refl

-- A public ring that librnp could not load.
abbrev broken_ring : Keyring
broken_ring = record toy_ring { valid = false }

abbrev broken_world : World toy
broken_world = record toy_world { rnp = record toy_rnp { public_keyring = some broken_ring } }

run_calls_unopened_example :
    run_calls
      (of_keys call_collection_names ∷ of_keys (call_remove_secret "P" "S") ∷ [])
      broken_world
    ≡ (of_names (unopened toy toy_rnp, []) ∷ of_secrets (unopened toy toy_rnp) ∷ [], broken_world)
run_calls_unopened_example =
    run_calls_unopened broken_ring broken_world refl refl
      (call_collection_names ∷ call_remove_secret "P" "S" ∷ [])
