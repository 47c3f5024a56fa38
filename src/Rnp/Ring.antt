-- ===== src/Rnp/Ring.antt =====
-- rnp/rnp.cpp, `Rnp`'s constructor and destructor, and the two key rings that it opens when they are
-- first asked for.
pub mod Laws
pub mod Opened
pub mod Sound
use sailfish_crypto_plugins.Common.{
  ℕ, String, Bool, true, false, Option, none, some, List, [], ◌∷◌, ◌++◌, str_eq, ◌||◌,
  if◌then◌else◌,
}
use sailfish_crypto_plugins.Host.{
  Host, Ret, ok, err, Keystore, gpg, kbx, Half, public_keys, secret_keys,
}
use sailfish_crypto_plugins.Machine.{
  World, M, Handle, Ptr, deref, input, output, handle, buffer, key_handle, release, release_ptr,
  pure, get_rnp, set_rnp, query, call, create, fetch_text, ◌>>=◌, ◌>>◌, Rnp, Keyring, Level, public,
  secret, Format, gpg_compat, rnp_native,
}

abbrev pub succeeded : {A : Type 0} → Ret A → Bool
succeeded (ok a) = true
succeeded (err c) = false

-- Rnp::Rnp, its members
unfoldable pub new_rnp : Host → Format → Rnp
new_rnp H gpg_compat = record {
  format = gpg_compat;
  keyring_path = H.home_file_path ".gnupg";
  public_key_path = H.home_file_path ".gnupg/pubring.gpg";
  secret_key_path = H.home_file_path ".gnupg/secring.gpg";
  public_keyring = none;
  secret_keyring = none;
}
new_rnp H rnp_native = record {
  format = rnp_native;
  keyring_path = H.home_file_path ".rnp";
  public_key_path = H.home_file_path ".gnupg/pubring.kbx";
  secret_key_path = H.home_file_path ".gnupg/secring.kbx";
  public_keyring = none;
  secret_keyring = none;
}

abbrev pub keystore : Format → Keystore
keystore gpg_compat = gpg
keystore rnp_native = kbx

-- Rnp::Rnp(Rnp::Format format), over what was there before: the files, which `s` holds.
unfoldable pub construct : (H : Host) → Format → H.State → World H
unfolding new_rnp
construct H format s = record {
  rnp = new_rnp H format;
  ffi = H.ffi_set_pass_provider (H.ffi_create (keystore format) s);
  next = 0;
  live = [];
  bad_frees = 0;
}

abbrev pub half : Level → Half
half public = public_keys
half secret = secret_keys

abbrev pub key_path : Rnp → Level → String
key_path r public = r.public_key_path
key_path r secret = r.secret_key_path

module _ {H : Host} where
  -- Rnp::Keyring::path()
  abbrev pub path : M H String
  path w = (w.rnp.keyring_path, w)

  load_keyring : Rnp → Level → Ret (Handle H.Input) → M H Keyring
  load_keyring r level (err c) = pure (record { valid = false; modified = false; level = level })
  load_keyring r level (ok keyin) = do
    res ← call (H.load_keys (keystore r.format) keyin.obj (half level))
    release (handle input keyin.addr)
    pure (record { valid = succeeded res; modified = false; level = level })

  -- Rnp::Keyring::Keyring(const Rnp *rnp, Level level)
  unfoldable pub open_keyring : Level → M H Keyring
  unfolding load_keyring
  open_keyring level = do
    r ← get_rnp
    keyin ← create input (H.input_from_path (H.to_utf8 (key_path r level)))
    load_keyring r level keyin

  save_keyring : Keyring → Rnp → Ret (Handle H.Output) → M H Unit
  save_keyring k r (err c) = pure tt
  save_keyring k r (ok keyout) = do
    call (H.save_keys (keystore r.format) keyout.obj (half k.level))
    release (handle output keyout.addr)

  save_if_modified : Keyring → Rnp → M H Unit
  unfolding save_keyring
  save_if_modified k r =
      if k.modified
      then (create output (H.output_to_path (H.to_utf8 (key_path r k.level))) >>= save_keyring k r)
      else pure tt

  unload_if_valid : Keyring → M H Unit
  unload_if_valid k = if k.valid then (call (H.unload_keys (half k.level)) >> pure tt) else pure tt

  -- delete of a Rnp::Keyring *: Rnp::Keyring::~Keyring()
  unfoldable pub close_keyring : Option Keyring → M H Unit
  unfolding save_if_modified unload_if_valid
  close_keyring none = pure tt
  close_keyring (some k) = do r ← get_rnp; save_if_modified k r; unload_if_valid k

  -- Rnp::~Rnp(), with the state that it leaves to the process.
  unfoldable pub destruct : World H → H.State
  destruct w =
      let w1 = (close_keyring w.rnp.public_keyring w).1 in
      let w2 = (close_keyring w1.rnp.secret_keyring w1).1 in H.ffi_destroy w2.ffi

  keep_public : Option Keyring → M H Keyring
  keep_public (some k) = pure k
  keep_public none = do
    k ← open_keyring public
    r ← get_rnp
    set_rnp (record r { public_keyring = some k })
    pure k

  -- Rnp::publicKeyring()
  unfoldable pub public_keyring : M H Keyring
  unfolding keep_public
  public_keyring = do r ← get_rnp; keep_public r.public_keyring

  keep_secret : Option Keyring → M H Keyring
  keep_secret (some k) = pure k
  keep_secret none = do
    k ← open_keyring secret
    r ← get_rnp
    set_rnp (record r { secret_keyring = some k })
    pure k

  -- Rnp::secretKeyring()
  unfoldable pub secret_keyring : M H Keyring
  unfolding keep_secret
  secret_keyring = do r ← get_rnp; keep_secret r.secret_keyring
