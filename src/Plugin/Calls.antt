-- ===== src/Plugin/Calls.antt =====
-- secrets/rnp/rnpkeys.h and secrets/rnp/rnpffi.h: the two interfaces through which the daemons call
-- the plugin, whose methods work on its one `Rnp` object. What a method is given for a result, and
-- nothing that it does not use, is an argument of its call.
pub mod Sound
pub mod Listing
pub mod Unopened
use sailfish_crypto_plugins.Common.{
  String, Bool, true, false, Option, List, [], ◌∷◌, ◌||◌, str_eq, if◌then◌else◌,
}
use sailfish_crypto_plugins.Host.{Host, Bytes, CryptoKey}
use sailfish_crypto_plugins.Machine.{M, World, pure, ◌>>=◌, ◌>>◌}
use sailfish_crypto_plugins.Keys.Outcome as KeysOutcome
use sailfish_crypto_plugins.Keys.Outcome.{Identifier}
use sailfish_crypto_plugins.Keys.Matching.{FilterOperator}
use sailfish_crypto_plugins.Keys.Collections.{collection_names, secret_names}
use sailfish_crypto_plugins.Keys.Search.{find_secrets}
use sailfish_crypto_plugins.Keys.Removal.{
  remove_secret, remove_collection, remove_standalone_secret,
}
use sailfish_crypto_plugins.Ffi.Outcome as FfiOutcome
use sailfish_crypto_plugins.Ffi.Outcome.{Parameters}
use sailfish_crypto_plugins.Ffi.Unsupported
use sailfish_crypto_plugins.Ffi.Unsupported.{TemporaryDir, KeyPairType}
use sailfish_crypto_plugins.Ffi.Operations.{OutBytes, sign, encrypt, stored_key_identifiers}
use sailfish_crypto_plugins.Ffi.Verification.{OutStatus, verify, decrypt}

-- A call of one of RnpKeys' methods.
pub data KeysCall : Type 0 where
  call_collection_names : KeysCall
  call_create_collection : String → Bytes → KeysCall
  call_remove_collection : String → KeysCall
  call_is_collection_locked : String → Option Bool → KeysCall
  call_derive_key_from_code : Bytes → Bytes → KeysCall
  call_set_encryption_key : String → Bytes → KeysCall
  call_reencrypt : String → Bytes → Bytes → KeysCall
  call_set_secret : String → String → Bytes → List (String × String) → KeysCall
  call_get_secret : String → String → KeysCall
  call_secret_names : String → KeysCall
  call_find_secrets : String → List (String × String) → FilterOperator → KeysCall
  call_remove_secret : String → String → KeysCall
  call_set_standalone_secret : String → Bytes → List (String × String) → Bytes → KeysCall
  call_access_secret : String → Bytes → KeysCall
  call_remove_standalone_secret : String → KeysCall
  call_reencrypt_secret : String → Bytes → Bytes → KeysCall

-- A call of one of RnpFfi's methods.
pub data FfiCall : Type 0 where
  call_generate_random_data : FfiCall
  call_seed_random_data_generator : FfiCall
  call_generate_initialization_vector : FfiCall
  call_generate_key : TemporaryDir → CryptoKey → CryptoKey → FfiCall
  call_generate_and_store_key : CryptoKey → FfiCall
  call_import_key : TemporaryDir → CryptoKey → FfiCall
  call_import_and_store_key : CryptoKey → FfiCall
  call_stored_key : CryptoKey → FfiCall
  call_stored_key_identifiers : String → List Identifier → FfiCall
  call_calculate_digest : FfiCall
  call_sign : Bytes → CryptoKey → Parameters → OutBytes → FfiCall
  call_verify : Bytes → Bytes → CryptoKey → OutStatus → FfiCall
  call_encrypt : Bytes → CryptoKey → Parameters → OutBytes → FfiCall
  call_decrypt : Bytes → CryptoKey → Bytes → OutStatus → FfiCall
  call_initialize_cipher_session : FfiCall
  call_update_cipher_session_authentication : FfiCall
  call_update_cipher_session : FfiCall
  call_finalize_cipher_session : FfiCall

-- A call of the plugin, through either of its interfaces.
pub data PluginCall : Type 0 where
  of_keys : KeysCall → PluginCall
  of_ffi : FfiCall → PluginCall

-- What a method returns, with what it writes to its arguments.
pub data Reply : Type 0 where
  of_secrets : KeysOutcome.Result → Reply
  of_names : KeysOutcome.Result × List String → Reply
  of_locked : KeysOutcome.Result × Option Bool → Reply
  of_secret_identifiers : KeysOutcome.Result × List Identifier → Reply
  of_crypto : FfiOutcome.Result → Reply
  of_key : FfiOutcome.Result × CryptoKey → Reply
  of_key_identifiers : FfiOutcome.Result × List Identifier → Reply
  of_bytes : FfiOutcome.Result × OutBytes → Reply
  of_status : FfiOutcome.Result × OutStatus → Reply
  of_plain : FfiOutcome.Result × Bytes × OutStatus → Reply

module _ {H : Host} where
  -- The reply is what the action gives.
  abbrev pub replied : {A : Type 0} → (A → Reply) → M H A → M H Reply
  replied f m w = let (a, w') = m w in (f a, w')

  pub run_keys : KeysCall → M H Reply
  run_keys call_collection_names = replied of_names collection_names
  run_keys (call_create_collection name key) =
      pure (of_secrets (KeysOutcome.create_collection name key))
  run_keys (call_remove_collection name) = replied of_secrets (remove_collection name)
  run_keys (call_is_collection_locked name locked) =
      pure (of_locked (KeysOutcome.is_collection_locked name locked))
  run_keys (call_derive_key_from_code code salt) =
      pure (of_secrets (KeysOutcome.derive_key_from_code code salt))
  run_keys (call_set_encryption_key name key) =
      pure (of_secrets (KeysOutcome.set_encryption_key name key))
  run_keys (call_reencrypt name oldkey newkey) =
      pure (of_secrets (KeysOutcome.reencrypt name oldkey newkey))
  run_keys (call_set_secret collection name secret filter) =
      pure (of_secrets (KeysOutcome.set_secret collection name secret filter))
  run_keys (call_get_secret collection name) =
      pure (of_secrets (KeysOutcome.get_secret collection name))
  run_keys (call_secret_names collection) = replied of_names (secret_names collection)
  run_keys (call_find_secrets collection filter op) =
      replied of_secret_identifiers (find_secrets op filter collection)
  run_keys (call_remove_secret collection name) = replied of_secrets (remove_secret collection name)
  run_keys (call_set_standalone_secret name secret filter key) =
      pure (of_secrets (KeysOutcome.set_standalone_secret name secret filter key))
  run_keys (call_access_secret name key) = pure (of_secrets (KeysOutcome.access_secret name key))
  run_keys (call_remove_standalone_secret name) = replied of_secrets (remove_standalone_secret name)
  run_keys (call_reencrypt_secret name oldkey newkey) =
      pure (of_secrets (KeysOutcome.reencrypt_secret name oldkey newkey))

  pub run_ffi : FfiCall → M H Reply
  run_ffi call_generate_random_data = pure (of_crypto Unsupported.generate_random_data)
  run_ffi call_seed_random_data_generator = pure (of_crypto Unsupported.seed_random_data_generator)
  run_ffi call_generate_initialization_vector =
      pure (of_crypto Unsupported.generate_initialization_vector)
  run_ffi (call_generate_key tmp template key) =
      pure (of_key (Unsupported.generate_key H tmp template key))
  run_ffi (call_generate_and_store_key key) = pure (of_key (Unsupported.generate_and_store_key key))
  run_ffi (call_import_key tmp key) = pure (of_key (Unsupported.import_key H tmp key))
  run_ffi (call_import_and_store_key key) = pure (of_key (Unsupported.import_and_store_key key))
  run_ffi (call_stored_key key) = pure (of_key (Unsupported.stored_key key))
  run_ffi (call_stored_key_identifiers collection identifiers) =
      replied of_key_identifiers (stored_key_identifiers collection identifiers)
  run_ffi call_calculate_digest = pure (of_crypto Unsupported.calculate_digest)
  run_ffi (call_sign message key parameters signature) =
      replied of_bytes (sign message key parameters signature)
  run_ffi (call_verify signature message key status) =
      replied of_status (verify signature message key status)
  run_ffi (call_encrypt message key parameters encrypted) =
      replied of_bytes (encrypt message key parameters encrypted)
  run_ffi (call_decrypt message key decrypted status) =
      replied of_plain (decrypt message key decrypted status)
  run_ffi call_initialize_cipher_session = pure (of_crypto Unsupported.initialize_cipher_session)
  run_ffi call_update_cipher_session_authentication =
      pure (of_crypto Unsupported.update_cipher_session_authentication)
  run_ffi call_update_cipher_session = pure (of_crypto Unsupported.update_cipher_session)
  run_ffi call_finalize_cipher_session = pure (of_crypto Unsupported.finalize_cipher_session)

  unfoldable pub run_call : PluginCall → M H Reply
  unfolding run_keys run_ffi
  run_call (of_keys c) = run_keys c
  run_call (of_ffi c) = run_ffi c

  -- The calls one after the other, and the replies.
  unfoldable pub run_calls : List PluginCall → M H (List Reply)
  unfolding run_call
  run_calls [] = pure []
  run_calls (c ∷ cs) = do reply ← run_call c; replies ← run_calls cs; pure (reply ∷ replies)

-- The calls after which a key ring may be marked modified.
abbrev pub may_remove : PluginCall → Bool
may_remove (of_keys (call_remove_collection name)) = true
may_remove (of_keys (call_remove_secret collection name)) = true
may_remove (of_keys (call_remove_standalone_secret name)) = true
may_remove _ = false
