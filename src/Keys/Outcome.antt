-- ===== src/Keys/Outcome.antt =====
-- secrets/rnp/rnpkeys.cpp: results, and the methods of `RnpKeys` that no state takes part in.
use sailfish_crypto_plugins.Common.{◌≡◌, refl, String, Bool, false, Option, none, some, List}
use sailfish_crypto_plugins.Host.{Host, Bytes}
use sailfish_crypto_plugins.Machine.{World, Rnp, Keyring, M, pure, ◌>>=◌, ◌>>◌}
use sailfish_crypto_plugins.Rnp.Ring.{public_keyring, path}
use sailfish_crypto_plugins.Rnp.Ring.Laws.{public_keyring_cached}

-- Sailfish::Secrets::Result::ErrorCode, as far as the source names it.
pub data ErrorCode : Type 0 where
  database_error invalid_collection_error operation_not_supported_error : ErrorCode

-- Sailfish::Secrets::Result
pub data Result : Type 0 where
  succeeded : Result
  failed : ErrorCode → String → Result

-- Sailfish::Secrets::Secret::Identifier
pub record Identifier : Type 0 where
  pub name : String
  pub collection_name : String
  pub storage_plugin_name : String

-- secrets/rnp/plugin.cpp, RnpPlugin::name() of the build that is not the test plugin.
abbrev pub plugin_name : String
plugin_name = "org.sailfishos.crypto.plugin.rnp"

-- The methods that the plugin does not support.
unfoldable pub create_collection : String → Bytes → Result
create_collection collection_name key =
    failed operation_not_supported_error "The RNP plugin doesn't support collection creation."

unfoldable pub derive_key_from_code : Bytes → Bytes → Result
derive_key_from_code authentication_code salt =
    failed operation_not_supported_error "The RNP plugin doesn't support encryption key."

unfoldable pub set_encryption_key : String → Bytes → Result
set_encryption_key collection_name key =
    failed operation_not_supported_error "The RNP plugin doesn't support encryption key."

unfoldable pub reencrypt : String → Bytes → Bytes → Result
reencrypt collection_name oldkey newkey =
    failed operation_not_supported_error "The RNP plugin doesn't support encryption key."

unfoldable pub set_secret : String → String → Bytes → List (String × String) → Result
set_secret collection_name secret_name secret filter_data =
    failed operation_not_supported_error "The RNP plugin doesn't support lambda secrets."

unfoldable pub get_secret : String → String → Result
get_secret collection_name secret_name =
    failed operation_not_supported_error "The RNP plugin doesn't support lambda secrets."

unfoldable pub set_standalone_secret : String → Bytes → List (String × String) → Bytes → Result
set_standalone_secret secret_name secret filter_data key =
    failed operation_not_supported_error "The RNP plugin doesn't support lambda secrets."

unfoldable pub access_secret : String → Bytes → Result
access_secret secret_name key =
    failed operation_not_supported_error "The RNP plugin doesn't support lambda secrets."

unfoldable pub reencrypt_secret : String → Bytes → Bytes → Result
reencrypt_secret secret_name oldkey newkey =
    failed operation_not_supported_error "The RNP plugin doesn't support lambda secrets."

-- RnpKeys::isCollectionLocked, with what `locked` points to, if it is not null.
unfoldable pub is_collection_locked : String → Option Bool → Result × Option Bool
is_collection_locked collection_name none = (succeeded, none)
is_collection_locked collection_name (some locked) = (succeeded, some false)

-- What the methods return for a collection that no key has.
unfoldable pub no_collection : Host → String → Result
no_collection H collection_name =
    failed invalid_collection_error (H.string_arg "no collection %1." collection_name)

-- What the methods return where the public key ring could not be loaded.
abbrev pub unopened : Host → Rnp → Result
unopened H r =
    failed database_error (H.string_arg "failed to open keyring at path '%1'." r.keyring_path)

module _ {H : Host} where
  -- `m_rnp->publicKeyring().path()` is asked for the ring again.
  pub not_opened : M H Result
  not_opened = do
    public_keyring
    p ← path
    pure (failed database_error (H.string_arg "failed to open keyring at path '%1'." p))

  pub not_opened_lem :
      (kr : Keyring) (w : World H)
      → w.rnp.public_keyring ≡ some kr
      → not_opened w ≡ (unopened H w.rnp, w)
  unfolding not_opened
  not_opened_lem kr w stored = rw (public_keyring_cached kr w stored) refl
