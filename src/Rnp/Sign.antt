-- ===== src/Rnp/Sign.antt =====
-- rnp/rnp.cpp, `Rnp::sign`.
pub mod Protocol
pub mod Cleanup
pub mod Operation
use sailfish_crypto_plugins.Common.{
  ℕ, Bool, true, false, Option, none, some, List, [], ◌∷◌, ◌*◌, if◌then◌else◌,
}
use sailfish_crypto_plugins.Host.{Host, Ret, ok, err, Bytes}
use sailfish_crypto_plugins.Machine.{
  World, M, Handle, Ptr, input, output, sign_op, release_ptr, pure, query, call, create, ◌>>=◌,
  ◌>>◌,
}
use sailfish_crypto_plugins.Rnp.Key.{Key}
use sailfish_crypto_plugins.Rnp.KeyArray.{add_keys}

abbrev pub mebibyte : ℕ
mebibyte = 1024 * 1024

-- The pointers that the label `out` frees, and the result.
pub record Locals (H : Host) : Type 0 where
  pub source : Ptr H.Input
  pub target : Ptr H.Output
  pub op : Ptr H.SignOp
  pub ret : Bytes

module _ {H : Host} where
  read_signature : Ret Bytes → M H Bytes
  read_signature (err c) = pure []
  read_signature (ok bytes) = pure bytes

  signature_of : H.Output → Ret Unit → M H Bytes
  unfolding read_signature
  signature_of out (err c) = pure []
  signature_of out (ok _) = query (H.output_memory_get_buf out) >>= read_signature

  execute_sign : H.SignOp → H.Output → Bool → M H Bytes
  unfolding signature_of
  execute_sign op out false = pure []
  execute_sign op out true = call (H.op_sign_execute op) >>= signature_of out

  sign_armored : H.SignOp → H.Output → List (Key H) → Ret Unit → M H Bytes
  unfolding execute_sign
  sign_armored op out keys (err c) = pure []
  sign_armored op out keys (ok _) =
      add_keys "sign" (H.op_sign_add_signature op) keys >>= execute_sign op out

  -- From the armor to the result.
  pub run_sign : H.SignOp → H.Output → List (Key H) → Bool → M H Bytes
  unfolding sign_armored
  run_sign op out keys armor = call (H.op_sign_set_armor op armor) >>= sign_armored op out keys

  sign_with_op :
      List (Key H)
      → Bool
      → Handle H.Input
      → Handle H.Output
      → Ret (Handle H.SignOp)
      → M H (Locals H)
  unfolding run_sign
  sign_with_op keys armor i o (err c) =
      pure (record { source = some i; target = some o; op = none; ret = [] })
  sign_with_op keys armor i o (ok op) = do
    ret ← run_sign op.obj o.obj keys armor
    pure (record { source = some i; target = some o; op = some op; ret = ret })

  sign_to_output : List (Key H) → Bool → Handle H.Input → Ret (Handle H.Output) → M H (Locals H)
  unfolding sign_with_op
  sign_to_output keys armor i (err c) =
      pure (record { source = some i; target = none; op = none; ret = [] })
  sign_to_output keys armor i (ok o) =
      create sign_op (H.op_sign_detached_create i.obj o.obj) >>= sign_with_op keys armor i o

  sign_from_input : List (Key H) → Bool → Ret (Handle H.Input) → M H (Locals H)
  unfolding sign_to_output
  sign_from_input keys armor (err c) =
      pure (record { source = none; target = none; op = none; ret = [] })
  sign_from_input keys armor (ok i) =
      create output (H.output_to_memory mebibyte) >>= sign_to_output keys armor i

  -- The label `out`.
  pub finish_sign : Locals H → M H Bytes
  unfolding release_ptr
  finish_sign l = do
    release_ptr input l.source
    release_ptr output l.target
    release_ptr sign_op l.op
    pure l.ret

  -- Rnp::sign(const QByteArray &data, const Rnp::Key key[], bool armor)
  unfoldable pub sign : Bytes → List (Key H) → Bool → M H Bytes
  unfolding sign_from_input finish_sign
  sign bytes keys armor = do
    i ← create input (H.input_from_memory bytes)
    l ← sign_from_input keys armor i
    finish_sign l
