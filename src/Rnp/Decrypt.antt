-- ===== src/Rnp/Decrypt.antt =====
-- rnp/rnp.cpp, `Rnp::decrypt`.
pub mod Recipient
pub mod Operation
use sailfish_crypto_plugins.Common.{String, Option, none, some, List, []}
use sailfish_crypto_plugins.Host.{Host, Ret, ok, err, Bytes}
use sailfish_crypto_plugins.Machine.{
  M, Handle, Ptr, buffer, input, output, verify_op, release, release_ptr, pure, query, call, create,
  fetch_text, ◌>>=◌, ◌>>◌,
}
use sailfish_crypto_plugins.Rnp.Key.{load, destroy}
use sailfish_crypto_plugins.Rnp.Ring.{secret_keyring}
use sailfish_crypto_plugins.Rnp.Encrypt.{gibibyte}
use sailfish_crypto_plugins.Rnp.Verify.{Signature, signatures_of}

-- The list that `signers` points to, `none` if it is null.
abbrev pub Signers : Type 0
Signers = Option (List Signature)

-- The pointers that the label `out` frees, and the results.
pub record Locals (H : Host) : Type 0 where
  pub source : Ptr H.Input
  pub target : Ptr H.Output
  pub op : Ptr H.VerifyOp
  pub ret : Bytes
  pub signers : Signers

module _ {H : Host} where
  append_signers : H.VerifyOp → Signers → M H Signers
  append_signers op none = pure none
  append_signers op (some list) = do list' ← signatures_of op list; pure (some list')

  -- The key of the recipient, which is looked up for the log.
  used_key : Ret String → M H Unit
  used_key (err c) = pure tt
  used_key (ok keyid) = do
    key ← load "keyid" (H.from_latin1 keyid)
    release (buffer keyid)
    destroy key

  pub used_recipient : Ret H.Recipient → M H Unit
  unfolding used_key
  used_recipient (err c) = pure tt
  used_recipient (ok user) = fetch_text (H.recipient_get_keyid user) >>= used_key

  read_decrypted : H.VerifyOp → Signers → Ret Bytes → M H (Bytes × Signers)
  read_decrypted op signers (err c) = pure ([], signers)
  read_decrypted op signers (ok bytes) = do
    signers' ← append_signers op signers
    query (H.op_verify_get_used_recipient op) >>= used_recipient
    pure (bytes, signers')

  pub decrypted_of : H.VerifyOp → H.Output → Signers → Ret Unit → M H (Bytes × Signers)
  decrypted_of op out signers (err c) = pure ([], signers)
  decrypted_of op out signers (ok _) =
      query (H.output_memory_get_buf out) >>= read_decrypted op signers

  decrypt_with_op :
      Signers → Handle H.Input → Handle H.Output → Ret (Handle H.VerifyOp) → M H (Locals H)
  decrypt_with_op signers i o (err c) =
      pure (record { source = some i; target = some o; op = none; ret = []; signers = signers })
  decrypt_with_op signers i o (ok op) = do
    r ← call (H.op_verify_execute op.obj) >>= decrypted_of op.obj o.obj signers
    pure (record { source = some i; target = some o; op = some op; ret = r.0; signers = r.1 })

  decrypt_to_output : Signers → Handle H.Input → Ret (Handle H.Output) → M H (Locals H)
  unfolding decrypt_with_op
  decrypt_to_output signers i (err c) =
      pure (record { source = some i; target = none; op = none; ret = []; signers = signers })
  decrypt_to_output signers i (ok o) = do
    secret_keyring
    op ← create verify_op (H.op_verify_create i.obj o.obj)
    decrypt_with_op signers i o op

  decrypt_from_input : Signers → Ret (Handle H.Input) → M H (Locals H)
  unfolding decrypt_to_output
  decrypt_from_input signers (err c) =
      pure (record { source = none; target = none; op = none; ret = []; signers = signers })
  decrypt_from_input signers (ok i) =
      create output (H.output_to_memory gibibyte) >>= decrypt_to_output signers i

  -- The label `out`.
  finish_decrypt : Locals H → M H (Bytes × Signers)
  unfolding release_ptr
  finish_decrypt l = do
    release_ptr input l.source
    release_ptr output l.target
    release_ptr verify_op l.op
    pure (l.ret, l.signers)

  -- Rnp::decrypt(const QByteArray &data, QList<Rnp::Signature> *signers)
  unfoldable pub decrypt : Bytes → Signers → M H (Bytes × Signers)
  unfolding decrypt_from_input finish_decrypt
  decrypt message signers = do
    i ← create input (H.input_from_memory message)
    l ← decrypt_from_input signers i
    finish_decrypt l
