-- ===== src/Rnp/Encrypt.antt =====
-- rnp/rnp.cpp, `Rnp::encrypt`.
pub mod Operation
use sailfish_crypto_plugins.Common.{ℕ, Bool, true, false, none, some, List, [], ◌*◌}
use sailfish_crypto_plugins.Host.{Host, Ret, ok, err, Bytes}
use sailfish_crypto_plugins.Machine.{
  M, Handle, Ptr, input, output, encrypt_op, release_ptr, pure, query, call, create, ◌>>=◌, ◌>>◌,
}
use sailfish_crypto_plugins.Rnp.Key.{Key}
use sailfish_crypto_plugins.Rnp.KeyArray.{add_keys}

abbrev pub gibibyte : ℕ
gibibyte = 1024 * 1024 * 1024

-- The pointers that the label `out` frees, and the result.
pub record Locals (H : Host) : Type 0 where
  pub source : Ptr H.Input
  pub target : Ptr H.Output
  pub op : Ptr H.EncryptOp
  pub ret : Bytes

module _ {H : Host} where
  read_encrypted : Ret Bytes → M H Bytes
  read_encrypted (err c) = pure []
  read_encrypted (ok bytes) = pure bytes

  encrypted_of : H.Output → Ret Unit → M H Bytes
  unfolding read_encrypted
  encrypted_of out (err c) = pure []
  encrypted_of out (ok _) = query (H.output_memory_get_buf out) >>= read_encrypted

  execute_encrypt : H.EncryptOp → H.Output → Bool → M H Bytes
  unfolding encrypted_of
  execute_encrypt op out false = pure []
  execute_encrypt op out true = call (H.op_encrypt_execute op) >>= encrypted_of out

  -- The loop over the signers, once that over the recipients has come to its end.
  encrypt_signers : H.EncryptOp → List (Key H) → Bool → M H Bool
  encrypt_signers op signers false = pure false
  encrypt_signers op signers true = add_keys "sign" (H.op_encrypt_add_signature op) signers

  encrypt_armored : H.EncryptOp → H.Output → List (Key H) → List (Key H) → Ret Unit → M H Bytes
  unfolding encrypt_signers execute_encrypt
  encrypt_armored op out recipients signers (err c) = pure []
  encrypt_armored op out recipients signers (ok _) = do
    recipients_added ← add_keys "encrypt" (H.op_encrypt_add_recipient op) recipients
    signers_added ← encrypt_signers op signers recipients_added
    execute_encrypt op out signers_added

  -- From the armor to the result.
  pub run_encrypt : H.EncryptOp → H.Output → List (Key H) → List (Key H) → Bool → M H Bytes
  unfolding encrypt_armored
  run_encrypt op out recipients signers armor =
      call (H.op_encrypt_set_armor op armor) >>= encrypt_armored op out recipients signers

  encrypt_with_op :
      List (Key H)
      → List (Key H)
      → Bool
      → Handle H.Input
      → Handle H.Output
      → Ret (Handle H.EncryptOp)
      → M H (Locals H)
  encrypt_with_op recipients signers armor i o (err c) =
      pure (record { source = some i; target = some o; op = none; ret = [] })
  encrypt_with_op recipients signers armor i o (ok op) = do
    ret ← run_encrypt op.obj o.obj recipients signers armor
    pure (record { source = some i; target = some o; op = some op; ret = ret })

  encrypt_to_output :
      List (Key H) → List (Key H) → Bool → Handle H.Input → Ret (Handle H.Output) → M H (Locals H)
  unfolding encrypt_with_op
  encrypt_to_output recipients signers armor i (err c) =
      pure (record { source = some i; target = none; op = none; ret = [] })
  encrypt_to_output recipients signers armor i (ok o) =
      create encrypt_op (H.op_encrypt_create i.obj o.obj)
      >>= encrypt_with_op recipients signers armor i o

  encrypt_from_input : List (Key H) → List (Key H) → Bool → Ret (Handle H.Input) → M H (Locals H)
  unfolding encrypt_to_output
  encrypt_from_input recipients signers armor (err c) =
      pure (record { source = none; target = none; op = none; ret = [] })
  encrypt_from_input recipients signers armor (ok i) =
      create output (H.output_to_memory gibibyte) >>= encrypt_to_output recipients signers armor i

  -- The label `out`.
  finish_encrypt : Locals H → M H Bytes
  unfolding release_ptr
  finish_encrypt l = do
    release_ptr input l.source
    release_ptr output l.target
    release_ptr encrypt_op l.op
    pure l.ret

  -- Rnp::encrypt(const QByteArray &data, const Rnp::Key recipients[], const Rnp::Key signers[], bool armor)
  unfoldable pub encrypt : Bytes → List (Key H) → List (Key H) → Bool → M H Bytes
  unfolding encrypt_from_input finish_encrypt
  encrypt message recipients signers armor = do
    i ← create input (H.input_from_memory message)
    l ← encrypt_from_input recipients signers armor i
    finish_encrypt l
