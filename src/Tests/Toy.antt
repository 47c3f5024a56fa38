-- ===== src/Tests/Toy.antt =====
-- A librnp with one primary key, 0, and its subkey, 1. Its state counts the calls that change it.
use sailfish_crypto_plugins.Common.{
  ℕ, zero, suc, String, Bool, true, false, Option, none, some, List, [], ◌∷◌, str_eq, if◌then◌else◌,
}
use sailfish_crypto_plugins.Host.{
  Host, Ret, ok, err, other, CryptoKey, algorithm_unknown, origin_unknown,
}
use sailfish_crypto_plugins.Machine.{World, gpg_compat, Keyring, public, Rnp}

abbrev pub empty_key : CryptoKey
empty_key = record {
  name = "";
  collection_name = "";
  storage_plugin_name = "";
  public_key = "";
  private_key = "";
  filter_data = [];
  origin = origin_unknown;
  size = 0;
  algorithm = algorithm_unknown;
  operations = record {
    can_verify = false;
    can_decrypt = false;
    can_encrypt = false;
    can_sign = false;
  };
}

abbrev toy_locate : String → Ret (Option ℕ)
toy_locate value =
    if str_eq value "P" then ok (some zero) else if str_eq value "S" then ok (some 1) else ok none

abbrev toy_primary : Option ℕ → Ret Bool
toy_primary (some zero) = ok true
toy_primary (some (suc n)) = ok false
toy_primary none = err (other 7)

abbrev toy_fprint : Option ℕ → Ret String
toy_fprint (some zero) = ok "P"
toy_fprint (some (suc n)) = ok "S"
toy_fprint none = err (other 7)

abbrev toy_count : Option ℕ → Ret ℕ
toy_count (some zero) = ok 1
toy_count _ = err (other 7)

abbrev toy_subkey : ℕ → Ret ℕ
toy_subkey zero = ok 1
toy_subkey (suc n) = err (other 2)

-- The key cannot be removed; its subkey can.
abbrev toy_remove : Option ℕ → ℕ → Ret Unit × ℕ
toy_remove (some (suc zero)) s = (ok tt, suc s)
toy_remove _ s = (err (other 7), s)

abbrev pub toy : Host
toy = record {
  State = ℕ;
  KeyRef = ℕ;
  Input = List ℕ;
  Output = Unit;
  SignOp = Unit;
  EncryptOp = Unit;
  VerifyOp = Unit;
  VerifySig = Unit;
  SigRef = Unit;
  Recipient = Unit;
  Uid = Unit;
  ffi_create = λ _ s. s;
  ffi_set_pass_provider = λ s. s;
  ffi_destroy = suc;
  input_from_memory = λ bytes s. (ok bytes, suc s);
  input_from_path = λ _ s. (ok [], suc s);
  output_to_memory = λ _ s. (ok tt, suc s);
  output_to_path = λ _ s. (ok tt, suc s);
  output_memory_get_buf = λ _ _. ok (65 ∷ 66 ∷ []);
  locate_key = λ _ value _. toy_locate value;
  key_is_primary = λ r _. toy_primary r;
  key_get_primary_fprint = λ _ _. ok "P";
  key_get_fprint = λ r _. toy_fprint r;
  key_get_keyid = λ r _. toy_fprint r;
  key_get_subkey_count = λ r _. toy_count r;
  key_get_subkey_at = λ _ i _. toy_subkey i;
  key_have_secret = λ _ _. ok true;
  key_remove = λ r _ s. toy_remove r s;
  key_allows_usage = λ _ _ _. ok true;
  key_get_uid_count = λ _ _. ok 0;
  key_get_uid_handle_at = λ _ _ _. err (other 2);
  uid_is_user_id = λ _ _. ok true;
  key_get_uid_at = λ _ _ _. err (other 2);
  key_get_expiration = λ _ _. ok 0;
  key_get_creation = λ _ _. ok 0;
  key_get_alg = λ _ _. ok "RSA";
  load_keys = λ _ _ _ s. (ok tt, suc s);
  save_keys = λ _ _ _ s. (ok tt, suc s);
  unload_keys = λ _ s. (ok tt, suc s);
  import_keys = λ _ s. (ok "", suc s);
  identifier_iterator_create = λ _ _. ok (ok "P" ∷ ok "S" ∷ []);
  op_sign_detached_create = λ _ _ s. (ok tt, suc s);
  op_sign_set_armor = λ _ _ s. (ok tt, suc s);
  op_sign_add_signature = λ _ _ s. (ok tt, suc s);
  op_sign_execute = λ _ s. (ok tt, suc s);
  op_encrypt_create = λ _ _ s. (ok tt, suc s);
  op_encrypt_set_armor = λ _ _ s. (ok tt, suc s);
  op_encrypt_add_recipient = λ _ _ s. (ok tt, suc s);
  op_encrypt_add_signature = λ _ _ s. (ok tt, suc s);
  op_encrypt_execute = λ _ s. (ok tt, suc s);
  op_verify_detached_create = λ _ _ s. (ok tt, suc s);
  op_verify_create = λ _ _ s. (ok tt, suc s);
  op_verify_execute = λ _ s. (ok tt, suc s);
  op_verify_get_signature_count = λ _ _. ok 1;
  op_verify_get_signature_at = λ _ _ _. ok tt;
  op_verify_get_used_recipient = λ _ _. ok tt;
  recipient_get_keyid = λ _ _. ok "S";
  signature_get_key = λ _ _. ok 1;
  signature_get_status = λ _ _. ok tt;
  signature_get_handle = λ _ _. ok tt;
  sig_get_keyid = λ _ _. ok "S";
  sig_get_key_fprint = λ _ _. ok "S";
  from_latin1 = λ s. s;
  from_utf8 = λ s. s;
  to_latin1 = λ s. s;
  to_utf8 = λ s. s;
  to_upper = λ s. s;
  split_commas = λ s. s ∷ [];
  join_commas = λ _. "";
  string_right = λ s _. s;
  string_arg = λ s _. s;
  date_of_msecs = λ _. "";
  home_file_path = λ s. s;
  new_crypto_key = empty_key;
}

-- An open public key ring, not modified.
abbrev pub toy_ring : Keyring
toy_ring = record { valid = true; modified = false; level = public }

abbrev pub toy_rnp : Rnp
toy_rnp = record {
  format = gpg_compat;
  keyring_path = ".gnupg";
  public_key_path = ".gnupg/pubring.gpg";
  secret_key_path = ".gnupg/secring.gpg";
  public_keyring = some toy_ring;
  secret_keyring = none;
}

abbrev pub toy_world : World toy
toy_world = record { rnp = toy_rnp; ffi = 0; next = 0; live = []; bad_frees = 0 }
