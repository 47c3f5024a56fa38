-- ===== src/Rnp/Sign/Operation.antt =====
-- rnp/rnp.cpp: `Rnp::sign` as a whole, against a description without handles.
use sailfish_crypto_plugins.Common.{ℕ, suc, ◌≡◌, refl, Bool, true, false, List, [], ◌∷◌}
use sailfish_crypto_plugins.Host.{Host, Ret, ok, err, Bytes}
use sailfish_crypto_plugins.Machine.{
  World, release_ptr, handle, input, sign_op, output, given, ◌>>=◌,
}
use sailfish_crypto_plugins.Machine.Ledger.{release_head}
use sailfish_crypto_plugins.Rnp.Key.{Key}
use sailfish_crypto_plugins.Rnp.KeyArray.Result.{keys_read, keys_added, add_keys_lem}
use sailfish_crypto_plugins.Rnp.Sign.{
  mebibyte, read_signature, signature_of, execute_sign, sign_armored, run_sign, sign_with_op,
  sign_to_output, sign_from_input, finish_sign, sign,
}
use sailfish_crypto_plugins.Rnp.Sign.Cleanup.{in_handle, out_handle, with_out, free_two, free_three}

module _ (H : Host) where
  abbrev contents : Ret Bytes → Bytes
  contents (err c) = []
  contents (ok bytes) = bytes

  abbrev executed_at : H.Output → Ret Unit × H.State → Bytes × H.State
  executed_at o (err c, s) = ([], s)
  executed_at o (ok _, s) = (contents (H.output_memory_get_buf o s), s)

  abbrev run_at : H.SignOp → H.Output → Bool × H.State → Bytes × H.State
  run_at op o (false, s) = ([], s)
  run_at op o (true, s) = executed_at o (H.op_sign_execute op s)

  abbrev armored_at : H.SignOp → H.Output → List H.KeyRef → Ret Unit × H.State → Bytes × H.State
  armored_at op o keys (err c, s) = ([], s)
  armored_at op o keys (ok _, s) =
      run_at op o (keys_added H "sign" (H.op_sign_add_signature op) keys s)

  abbrev with_op_at : H.Output → List H.KeyRef → Bool → Ret H.SignOp × H.State → Bytes × H.State
  with_op_at o keys armor (err c, s) = ([], s)
  with_op_at o keys armor (ok op, s) = armored_at op o keys (H.op_sign_set_armor op armor s)

  abbrev to_output_at : H.Input → List H.KeyRef → Bool → Ret H.Output × H.State → Bytes × H.State
  to_output_at i keys armor (err c, s) = ([], s)
  to_output_at i keys armor (ok o, s) = with_op_at o keys armor (H.op_sign_detached_create i o s)

  abbrev from_input_at : List H.KeyRef → Bool → Ret H.Input × H.State → Bytes × H.State
  from_input_at keys armor (err c, s) = ([], s)
  from_input_at keys armor (ok i, s) = to_output_at i keys armor (H.output_to_memory mebibyte s)

  -- The calls in their order, each made if the one before succeeded, and what the output holds.
  abbrev pub signed : H.State → Bytes → List H.KeyRef → Bool → Bytes × H.State
  signed s message keys armor = from_input_at keys armor (H.input_from_memory message s)

module _ {H : Host} where
  read_signature_lem : (r : Ret Bytes) (w : World H) → read_signature r w ≡ (contents H r, w)
  unfolding read_signature
  read_signature_lem (err c) w = refl
  read_signature_lem (ok bytes) w = refl

  signature_of_lem :
      (o : H.Output) (q : Ret Unit × H.State) (w : World H)
      → let (b, s) = executed_at H o q in
        signature_of o q.0 (record w { ffi = q.1 }) ≡ (b, record w { ffi = s })
  unfolding signature_of
  signature_of_lem o (err c, s) w = refl
  signature_of_lem o (ok _, s) w =
      read_signature_lem (H.output_memory_get_buf o s) (record w { ffi = s })

  execute_sign_lem :
      (op : H.SignOp) (o : H.Output) (q : Bool × H.State) (w : World H)
      → let (b, s) = run_at H op o q in
        execute_sign op o q.0 (record w { ffi = q.1 }) ≡ (b, record w { ffi = s })
  unfolding execute_sign
  execute_sign_lem op o (false, s) w = refl
  execute_sign_lem op o (true, s) w = signature_of_lem o (H.op_sign_execute op s) w

  sign_armored_lem :
      (op : H.SignOp) (o : H.Output) (keys : List (Key H)) (q : Ret Unit × H.State) (w : World H)
      → let (b, s) = armored_at H op o (keys_read keys) q in
        sign_armored op o keys q.0 (record w { ffi = q.1 }) ≡ (b, record w { ffi = s })
  unfolding sign_armored
  sign_armored_lem op o keys (err c, s) w = refl
  sign_armored_lem op o keys (ok _, s) w =
      let added = keys_added H "sign" (H.op_sign_add_signature op) (keys_read keys) s in
      rw (add_keys_lem "sign" (H.op_sign_add_signature op) keys (record w { ffi = s }))
        (execute_sign_lem op o added w)

  run_sign_lem :
      (op : H.SignOp) (o : H.Output) (keys : List (Key H)) (armor : Bool) (w : World H)
      → let (b, s) = armored_at H op o (keys_read keys) (H.op_sign_set_armor op armor w.ffi) in
        run_sign op o keys armor w ≡ (b, record w { ffi = s })
  unfolding run_sign
  run_sign_lem op o keys armor w = sign_armored_lem op o keys (H.op_sign_set_armor op armor w.ffi) w

  module _ (keys : List (Key H)) (armor : Bool) (w : World H) where
    Settled : Bytes × H.State → Bytes × World H → Type 0
    Settled v out = (n : ℕ) × (out ≡ (v.0, record w { ffi = v.1; next = n }))

    after_op :
        (i : H.Input) (o : H.Output) (q : Ret H.SignOp × H.State)
        → let (p, w') = given sign_op q.0 (with_out keys armor w q.1) in
          Settled (with_op_at H o (keys_read keys) armor q) (
            (sign_with_op keys armor (in_handle keys armor w i) (out_handle keys armor w o) p
                >>= finish_sign)
              w')
    unfolding sign_with_op Settled
    after_op i o (err c, s) = (suc (suc w.next), free_two keys armor w s _ [] i o)
    after_op i o (ok op, s) =
        let a = suc (suc w.next) in
        let (b, s') = with_op_at H o (keys_read keys) armor (ok op, s) in
        (
          suc a,
          rw
              (run_sign_lem op o keys armor (record w {
                ffi = s;
                next = suc a;
                live = handle sign_op a ∷ handle output (suc w.next) ∷ handle input w.next ∷ w.live;
              }))
              (free_three keys armor w s' (suc a) b i o (record { addr = a; obj = op })),
        )

    after_output :
        (i : H.Input) (q : Ret H.Output × H.State)
        → let (p, w') =
            given output q.0
              (record w { ffi = q.1; next = suc w.next; live = handle input w.next ∷ w.live }) in
          Settled
            (to_output_at H i (keys_read keys) armor q)
            ((sign_to_output keys armor (in_handle keys armor w i) p >>= finish_sign) w')
    unfolding sign_to_output finish_sign release_ptr Settled
    after_output i (err c, s) = (
      suc w.next,
      rw (release_head (handle input w.next) (record w { ffi = s; next = suc w.next })),
    )
    after_output i (ok o, s) = after_op i o (H.op_sign_detached_create i o s)

    after_input :
        (q : Ret H.Input × H.State)
        → let (p, w') = given input q.0 (record w { ffi = q.1 }) in
          Settled
            (from_input_at H (keys_read keys) armor q)
            ((sign_from_input keys armor p >>= finish_sign) w')
    unfolding sign_from_input finish_sign release_ptr Settled
    after_input (err c, s) = (w.next, refl)
    after_input (ok i, s) = after_output i (H.output_to_memory mebibyte s)

  -- `Rnp::sign` makes librnp's calls in their order, each if the one before succeeded: the message, the
  -- output, the operation, the armor, the keys before the first null one, each allowed to sign, and
  -- the execution. It returns what the output then holds, and nothing after a failure; it frees the
  -- input, the output and the operation on every path, each once, and leaves the key rings alone.
  pub sign_lem :
      (message : Bytes) (keys : List (Key H)) (armor : Bool) (w : World H)
      → let (b, s) = signed H w.ffi message (keys_read keys) armor in
        (n : ℕ) × (sign message keys armor w ≡ (b, record w { ffi = s; next = n }))
  unfolding sign Settled
  sign_lem message keys armor w = after_input keys armor w (H.input_from_memory message w.ffi)
