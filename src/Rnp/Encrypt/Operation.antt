-- ===== src/Rnp/Encrypt/Operation.antt =====
-- rnp/rnp.cpp: `Rnp::encrypt` as a whole, against a description without handles.
use sailfish_crypto_plugins.Common.{ℕ, suc, ◌≡◌, refl, Bool, true, false, List, [], ◌∷◌}
use sailfish_crypto_plugins.Host.{Host, Ret, ok, err, Bytes}
use sailfish_crypto_plugins.Machine.{
  World, Handle, release_ptr, give_back, handle, input, output, encrypt_op, given, ◌>>=◌,
}
use sailfish_crypto_plugins.Machine.Ledger.{release_head, release_among}
use sailfish_crypto_plugins.Rnp.Key.{Key}
use sailfish_crypto_plugins.Rnp.KeyArray.Result.{keys_read, keys_added, add_keys_lem}
use sailfish_crypto_plugins.Rnp.Encrypt.{
  gibibyte, read_encrypted, encrypted_of, execute_encrypt, encrypt_signers, encrypt_armored,
  run_encrypt, encrypt_with_op, encrypt_to_output, encrypt_from_input, finish_encrypt, encrypt,
}

module _ (H : Host) where
  abbrev contents : Ret Bytes → Bytes
  contents (err c) = []
  contents (ok bytes) = bytes

  abbrev executed_at : H.Output → Ret Unit × H.State → Bytes × H.State
  executed_at o (err c, s) = ([], s)
  executed_at o (ok _, s) = (contents (H.output_memory_get_buf o s), s)

  abbrev run_at : H.EncryptOp → H.Output → Bool × H.State → Bytes × H.State
  run_at op o (false, s) = ([], s)
  run_at op o (true, s) = executed_at o (H.op_encrypt_execute op s)

  abbrev signers_at : H.EncryptOp → List H.KeyRef → Bool × H.State → Bool × H.State
  signers_at op signers (false, s) = (false, s)
  signers_at op signers (true, s) = keys_added H "sign" (H.op_encrypt_add_signature op) signers s

  abbrev armored_at :
      H.EncryptOp → H.Output → List H.KeyRef → List H.KeyRef → Ret Unit × H.State → Bytes × H.State
  armored_at op o recipients signers (err c, s) = ([], s)
  armored_at op o recipients signers (ok _, s) =
      run_at op o (
        signers_at op signers (keys_added H "encrypt" (H.op_encrypt_add_recipient op) recipients s))

  abbrev with_op_at :
      H.Output → List H.KeyRef → List H.KeyRef → Bool → Ret H.EncryptOp × H.State → Bytes × H.State
  with_op_at o recipients signers armor (err c, s) = ([], s)
  with_op_at o recipients signers armor (ok op, s) =
      armored_at op o recipients signers (H.op_encrypt_set_armor op armor s)

  abbrev to_output_at :
      H.Input → List H.KeyRef → List H.KeyRef → Bool → Ret H.Output × H.State → Bytes × H.State
  to_output_at i recipients signers armor (err c, s) = ([], s)
  to_output_at i recipients signers armor (ok o, s) =
      with_op_at o recipients signers armor (H.op_encrypt_create i o s)

  abbrev from_input_at :
      List H.KeyRef → List H.KeyRef → Bool → Ret H.Input × H.State → Bytes × H.State
  from_input_at recipients signers armor (err c, s) = ([], s)
  from_input_at recipients signers armor (ok i, s) =
      to_output_at i recipients signers armor (H.output_to_memory gibibyte s)

  -- The calls in their order, each made if the one before succeeded, and what the output holds.
  abbrev pub encrypted : H.State → Bytes → List H.KeyRef → List H.KeyRef → Bool → Bytes × H.State
  encrypted s message recipients signers armor =
      from_input_at recipients signers armor (H.input_from_memory message s)

module _ {H : Host} where
  read_encrypted_lem : (r : Ret Bytes) (w : World H) → read_encrypted r w ≡ (contents H r, w)
  unfolding read_encrypted
  read_encrypted_lem (err c) w = refl
  read_encrypted_lem (ok bytes) w = refl

  encrypted_of_lem :
      (o : H.Output) (q : Ret Unit × H.State) (w : World H)
      → let (b, s) = executed_at H o q in
        encrypted_of o q.0 (record w { ffi = q.1 }) ≡ (b, record w { ffi = s })
  unfolding encrypted_of
  encrypted_of_lem o (err c, s) w = refl
  encrypted_of_lem o (ok _, s) w =
      read_encrypted_lem (H.output_memory_get_buf o s) (record w { ffi = s })

  execute_encrypt_lem :
      (op : H.EncryptOp) (o : H.Output) (q : Bool × H.State) (w : World H)
      → let (b, s) = run_at H op o q in
        execute_encrypt op o q.0 (record w { ffi = q.1 }) ≡ (b, record w { ffi = s })
  unfolding execute_encrypt
  execute_encrypt_lem op o (false, s) w = refl
  execute_encrypt_lem op o (true, s) w = encrypted_of_lem o (H.op_encrypt_execute op s) w

  encrypt_signers_lem :
      (op : H.EncryptOp) (signers : List (Key H)) (q : Bool × H.State) (w : World H)
      → let (b, s) = signers_at H op (keys_read signers) q in
        encrypt_signers op signers q.0 (record w { ffi = q.1 }) ≡ (b, record w { ffi = s })
  unfolding encrypt_signers
  encrypt_signers_lem op signers (false, s) w = refl
  encrypt_signers_lem op signers (true, s) w =
      add_keys_lem "sign" (H.op_encrypt_add_signature op) signers (record w { ffi = s })

  encrypt_armored_lem :
      (op : H.EncryptOp) (o : H.Output) (recipients signers : List (Key H)) (q : Ret Unit × H.State)
      (w : World H)
      → let (b, s) = armored_at H op o (keys_read recipients) (keys_read signers) q in
        encrypt_armored op o recipients signers q.0 (record w { ffi = q.1 })
        ≡ (b, record w { ffi = s })
  unfolding encrypt_armored
  encrypt_armored_lem op o recipients signers (err c, s) w = refl
  encrypt_armored_lem op o recipients signers (ok _, s) w =
      let added = keys_added H "encrypt" (H.op_encrypt_add_recipient op) (keys_read recipients) s in
      rw (add_keys_lem "encrypt" (H.op_encrypt_add_recipient op) recipients (record w { ffi = s }))
        (rw (encrypt_signers_lem op signers added w)
          (execute_encrypt_lem op o (signers_at H op (keys_read signers) added) w))

  run_encrypt_lem :
      (op : H.EncryptOp) (o : H.Output) (recipients signers : List (Key H)) (armor : Bool)
      (w : World H)
      → let (b, s) =
          armored_at H op o
            (keys_read recipients)
            (keys_read signers)
            (H.op_encrypt_set_armor op armor w.ffi) in
        run_encrypt op o recipients signers armor w ≡ (b, record w { ffi = s })
  unfolding run_encrypt
  run_encrypt_lem op o recipients signers armor w =
      encrypt_armored_lem op o recipients signers (H.op_encrypt_set_armor op armor w.ffi) w

  module _ (recipients signers : List (Key H)) (armor : Bool) (w : World H) where
    Settled : Bytes × H.State → Bytes × World H → Type 0
    Settled v out = (n : ℕ) × (out ≡ (v.0, record w { ffi = v.1; next = n }))

    abbrev in_handle : H.Input → Handle H.Input
    in_handle i = record { addr = w.next; obj = i }

    abbrev out_handle : H.Output → Handle H.Output
    out_handle o = record { addr = suc w.next; obj = o }

    after_op :
        (i : H.Input) (o : H.Output) (q : Ret H.EncryptOp × H.State)
        → let (p, w') = given encrypt_op q.0 (record w {
          ffi = q.1;
          next = suc (suc w.next);
          live = handle output (suc w.next) ∷ handle input w.next ∷ w.live;
        }) in
          Settled (with_op_at H o (keys_read recipients) (keys_read signers) armor q) (
            (encrypt_with_op recipients signers armor (in_handle i) (out_handle o) p
                >>= finish_encrypt)
              w')
    unfolding encrypt_with_op finish_encrypt release_ptr give_back Settled
    after_op i o (err c, s) =
        let w' = record w { ffi = s; next = suc (suc w.next) } in
        (
          suc (suc w.next),
          rw (release_among (handle input w.next) (handle output (suc w.next) ∷ []) w' refl)
              (rw (release_head (handle output (suc w.next)) w')),
        )
    after_op i o (ok op, s) =
        let a = suc (suc w.next) in
        let (b, s') = with_op_at H o (keys_read recipients) (keys_read signers) armor (ok op, s) in
        let w' = record w { ffi = s'; next = suc a } in
        (
          suc a,
          rw
              (run_encrypt_lem op o recipients signers armor (record w {
                ffi = s;
                next = suc a;
                live =
                    handle encrypt_op a ∷ handle output (suc w.next) ∷ handle input w.next ∷ w.live;
              }))
              (rw
                (release_among (handle input w.next)
                  (handle encrypt_op a ∷ handle output (suc w.next) ∷ []) w' refl)
                (rw (release_among (handle output (suc w.next)) (handle encrypt_op a ∷ []) w' refl)
                  (rw (release_head (handle encrypt_op a) w')))),
        )

    after_output :
        (i : H.Input) (q : Ret H.Output × H.State)
        → let (p, w') =
            given output q.0
              (record w { ffi = q.1; next = suc w.next; live = handle input w.next ∷ w.live }) in
          Settled
            (to_output_at H i (keys_read recipients) (keys_read signers) armor q)
            ((encrypt_to_output recipients signers armor (in_handle i) p >>= finish_encrypt) w')
    unfolding encrypt_to_output finish_encrypt release_ptr Settled
    after_output i (err c, s) = (
      suc w.next,
      rw (release_head (handle input w.next) (record w { ffi = s; next = suc w.next })),
    )
    after_output i (ok o, s) = after_op i o (H.op_encrypt_create i o s)

    after_input :
        (q : Ret H.Input × H.State)
        → let (p, w') = given input q.0 (record w { ffi = q.1 }) in
          Settled
            (from_input_at H (keys_read recipients) (keys_read signers) armor q)
            ((encrypt_from_input recipients signers armor p >>= finish_encrypt) w')
    unfolding encrypt_from_input finish_encrypt release_ptr Settled
    after_input (err c, s) = (w.next, refl)
    after_input (ok i, s) = after_output i (H.output_to_memory gibibyte s)

  -- `Rnp::encrypt` makes librnp's calls in their order, each if the one before succeeded: the message,
  -- the output, the operation, the armor, the recipients before the first null key, each allowed to
  -- encrypt, the signers likewise, each allowed to sign, and the execution. It returns what the output
  -- then holds, and nothing after a failure; it frees the input, the output and the operation on
  -- every path, each once, and leaves the key rings alone.
  pub encrypt_lem :
      (message : Bytes) (recipients signers : List (Key H)) (armor : Bool) (w : World H)
      → let (b, s) = encrypted H w.ffi message (keys_read recipients) (keys_read signers) armor in
        (n : ℕ) × (encrypt message recipients signers armor w ≡ (b, record w { ffi = s; next = n }))
  unfolding encrypt Settled
  encrypt_lem message recipients signers armor w =
      after_input recipients signers armor w (H.input_from_memory message w.ffi)
