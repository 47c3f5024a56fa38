-- ===== src/Rnp/Import.antt =====
-- rnp/rnp.cpp, `Rnp::importKeys`. The JSON text that librnp returns is read for the log alone.
pub mod Laws
use sailfish_crypto_plugins.Common.{String, List, []}
use sailfish_crypto_plugins.Host.{Host, Ret, ok, err, Bytes}
use sailfish_crypto_plugins.Machine.{
  M, Handle, buffer, handle, input, release, pure, call, create, given_text, ◌>>=◌, ◌>>◌,
}
use sailfish_crypto_plugins.Rnp.Ring.{public_keyring, secret_keyring}

module _ {H : Host} where
  -- The label `out`, as far as it concerns the JSON text.
  free_json : Ret String → M H Unit
  free_json (err c) = pure tt
  free_json (ok json) = release (buffer json)

  import_from_input : Ret (Handle H.Input) → M H (List String)
  unfolding free_json
  import_from_input (err c) = pure []
  import_from_input (ok i) = do
    res ← call (H.import_keys i.obj)
    json ← given_text res
    release (handle input i.addr)
    free_json json
    pure []

  -- Rnp::importKeys(const QByteArray &data)
  unfoldable pub import_keys : Bytes → M H (List String)
  unfolding import_from_input
  import_keys bytes = do
    public_keyring
    secret_keyring
    create input (H.input_from_memory bytes) >>= import_from_input
