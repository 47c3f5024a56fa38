-- ===== src/Plugin.antt =====
-- secrets/rnp/plugin.cpp, and what secrets/rnp/rnpkeys.h and secrets/rnp/rnpffi.h define in the classes.
pub mod Calls
pub mod Lifetime
use sailfish_crypto_plugins.Common.{ℕ, String, ◌≡◌, Bool, true}
use sailfish_crypto_plugins.Host.{Host, gpg}
use sailfish_crypto_plugins.Machine.{World, gpg_compat}
use sailfish_crypto_plugins.Rnp.Ring.{construct, new_rnp, destruct}
use sailfish_crypto_plugins.Rnp.Ring.Laws.{destruct_lem}

-- What the daemons are told of the plugin, as far as the source names it.
data StorageType : Type 0 where
  file_system_storage : StorageType

data EncryptionType : Type 0 where
  trusted_execution_software_encryption : EncryptionType

data EncryptionAlgorithm : Type 0 where
  no_algorithm : EncryptionAlgorithm

-- RnpKeys::storageType, encryptionType and encryptionAlgorithm
abbrev storage_type : StorageType
storage_type = file_system_storage

abbrev encryption_type : EncryptionType
encryption_type = trusted_execution_software_encryption

abbrev encryption_algorithm : EncryptionAlgorithm
encryption_algorithm = no_algorithm

-- RnpFfi::canStoreKeys and encryptionType
abbrev can_store_keys : Bool
can_store_keys = true

abbrev crypto_encryption_type : EncryptionType
crypto_encryption_type = trusted_execution_software_encryption

-- RnpPlugin::displayName and version
abbrev display_name : String
display_name = "RNP"

abbrev version : ℕ
version = 1

-- RnpPlugin's constructor and destructor: the `Rnp` object that `RnpKeys` and `RnpFfi` share.
pub new_plugin : (H : Host) → H.State → World H
new_plugin H s = construct H gpg_compat s

pub delete_plugin : {H : Host} → World H → H.State
delete_plugin w = destruct w

-- A plugin that is not used reads and writes no key file.
delete_plugin-new_plugin :
    (H : Host) (s : H.State)
    → delete_plugin (new_plugin H s) ≡ H.ffi_destroy (H.ffi_set_pass_provider (H.ffi_create gpg s))
unfolding delete_plugin new_plugin construct new_rnp
delete_plugin-new_plugin H s = destruct_lem (construct H gpg_compat s)
