-- ===== src/Host.antt =====
-- What the plugins take from outside the repository: librnp's C interface, and Qt's text functions.
-- Everything here is a parameter of the model. A librnp call either succeeds and yields its out
-- parameters, or fails and leaves them as they were; a query does not change the library's state.
use sailfish_crypto_plugins.Common.{ℕ, String, Bool, Option, List}

-- The values of `rnp_result_t` that the source tells apart, without RNP_SUCCESS.
pub data Code : Type 0 where
  key_not_found signature_expired signature_invalid : Code
  other : ℕ → Code

pub data Ret (A : Type 0) : Type 0 where
  ok : A → Ret A
  err : Code → Ret A

abbrev pub Bytes : Type 0
Bytes = List ℕ

-- RNP_KEYSTORE_GPG and RNP_KEYSTORE_KBX.
pub data Keystore : Type 0 where
  gpg kbx : Keystore

pub data Half : Type 0 where
  public_keys secret_keys : Half

-- RNP_KEY_REMOVE_PUBLIC, RNP_KEY_REMOVE_SECRET and RNP_KEY_REMOVE_SUBKEYS.
pub record RemoveFlags : Type 0 where
  pub public : Bool
  pub secret : Bool
  pub subkeys : Bool

-- Sailfish::Crypto::CryptoManager::Algorithm, as far as the source names it.
pub data Algorithm : Type 0 where
  algorithm_rsa algorithm_dsa algorithm_unknown : Algorithm
  algorithm_other : ℕ → Algorithm

-- Sailfish::Crypto::CryptoManager::Operations
pub record Operations : Type 0 where
  pub can_verify : Bool
  pub can_decrypt : Bool
  pub can_encrypt : Bool
  pub can_sign : Bool

-- Sailfish::Crypto::Key::Origin, as far as the source names it.
pub data Origin : Type 0 where
  origin_unknown : Origin
  origin_other : ℕ → Origin

-- What the setters of a Sailfish::Crypto::Key write and its getters read.
pub record CryptoKey : Type 0 where
  pub name : String
  pub collection_name : String
  pub storage_plugin_name : String
  pub public_key : String
  pub private_key : String
  pub filter_data : List (String × String)
  pub origin : Origin
  pub size : ℕ
  pub algorithm : Algorithm
  pub operations : Operations

abbrev pub Query : Type 0 → Type 0 → Type 0
Query S A = S → Ret A

abbrev pub Call : Type 0 → Type 0 → Type 0
Call S A = S → Ret A × S

pub record Host : Type 1 where
  -- The state of an `rnp_ffi_t`, with the files that it reads and writes.
  pub State : Type 0
  -- What the handles refer to.
  pub KeyRef : Type 0
  pub Input : Type 0
  pub Output : Type 0
  pub SignOp : Type 0
  pub EncryptOp : Type 0
  pub VerifyOp : Type 0
  pub VerifySig : Type 0
  pub SigRef : Type 0
  pub Recipient : Type 0
  pub Uid : Type 0
  -- rnp_ffi_create, which keeps the files as they are, rnp_ffi_set_pass_provider and rnp_ffi_destroy.
  pub ffi_create : Keystore → State → State
  pub ffi_set_pass_provider : State → State
  pub ffi_destroy : State → State
  -- Inputs and outputs.
  pub input_from_memory : Bytes → Call State Input
  pub input_from_path : String → Call State Input
  pub output_to_memory : ℕ → Call State Output
  pub output_to_path : String → Call State Output
  pub output_memory_get_buf : Output → Query State Bytes
  -- Keys. A null handle is `none`; `locate_key` may succeed with a null handle.
  pub locate_key : String → String → Query State (Option KeyRef)
  pub key_is_primary : Option KeyRef → Query State Bool
  pub key_get_primary_fprint : Option KeyRef → Query State String
  pub key_get_fprint : Option KeyRef → Query State String
  pub key_get_keyid : Option KeyRef → Query State String
  pub key_get_subkey_count : Option KeyRef → Query State ℕ
  pub key_get_subkey_at : Option KeyRef → ℕ → Query State KeyRef
  pub key_have_secret : Option KeyRef → Query State Bool
  pub key_remove : Option KeyRef → RemoveFlags → Call State Unit
  pub key_allows_usage : Option KeyRef → String → Query State Bool
  pub key_get_uid_count : Option KeyRef → Query State ℕ
  pub key_get_uid_handle_at : Option KeyRef → ℕ → Query State Uid
  pub uid_is_user_id : Uid → Query State Bool
  pub key_get_uid_at : Option KeyRef → ℕ → Query State String
  pub key_get_expiration : Option KeyRef → Query State ℕ
  pub key_get_creation : Option KeyRef → Query State ℕ
  pub key_get_alg : Option KeyRef → Query State String
  -- Key rings.
  pub load_keys : Keystore → Input → Half → Call State Unit
  pub save_keys : Keystore → Output → Half → Call State Unit
  pub unload_keys : Half → Call State Unit
  pub import_keys : Input → Call State String
  -- The iterator's answers, in order, before the one that is null.
  pub identifier_iterator_create : String → Query State (List (Ret String))
  -- Operations.
  pub op_sign_detached_create : Input → Output → Call State SignOp
  pub op_sign_set_armor : SignOp → Bool → Call State Unit
  pub op_sign_add_signature : SignOp → Option KeyRef → Call State Unit
  pub op_sign_execute : SignOp → Call State Unit
  pub op_encrypt_create : Input → Output → Call State EncryptOp
  pub op_encrypt_set_armor : EncryptOp → Bool → Call State Unit
  pub op_encrypt_add_recipient : EncryptOp → Option KeyRef → Call State Unit
  pub op_encrypt_add_signature : EncryptOp → Option KeyRef → Call State Unit
  pub op_encrypt_execute : EncryptOp → Call State Unit
  pub op_verify_detached_create : Input → Input → Call State VerifyOp
  pub op_verify_create : Input → Output → Call State VerifyOp
  pub op_verify_execute : VerifyOp → Call State Unit
  pub op_verify_get_signature_count : VerifyOp → Query State ℕ
  pub op_verify_get_signature_at : VerifyOp → ℕ → Query State VerifySig
  pub op_verify_get_used_recipient : VerifyOp → Query State Recipient
  pub recipient_get_keyid : Recipient → Query State String
  pub signature_get_key : VerifySig → Query State KeyRef
  pub signature_get_status : VerifySig → Query State Unit
  pub signature_get_handle : VerifySig → Query State SigRef
  pub sig_get_keyid : SigRef → Query State String
  pub sig_get_key_fprint : SigRef → Query State String
  -- Qt: QString::fromLatin1, fromUtf8, toLatin1, toUtf8, toUpper, split(',', SkipEmptyParts), join(",").
  pub from_latin1 : String → String
  pub from_utf8 : String → String
  pub to_latin1 : String → String
  pub to_utf8 : String → String
  pub to_upper : String → String
  pub split_commas : String → List String
  pub join_commas : List String → String
  -- QString::right(n) and QString::arg(s).
  pub string_right : String → ℕ → String
  pub string_arg : String → String → String
  -- QDateTime::fromMSecsSinceEpoch(…).toString()
  pub date_of_msecs : ℕ → String
  -- QDir::home().absoluteFilePath(…)
  pub home_file_path : String → String
  -- Sailfish::Crypto::Key::Key()
  pub new_crypto_key : CryptoKey
