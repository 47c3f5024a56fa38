-- ===== src/Rnp/Sign/Protocol.antt =====
-- rnp/rnp.cpp: the calls that a signature takes, and that `Rnp::sign` makes them and frees what they
-- gave out.
use mathlib.Core.Bool.{false≢true}
use sailfish_crypto_plugins.Common.{◌≡◌, ◌⊎◌, inl, inr, sym, refl, ◌∙◌, Bool, true, false, List, []}
use sailfish_crypto_plugins.Host.{Host, Ret, ok, err, Bytes}
use sailfish_crypto_plugins.Machine.{World}
use sailfish_crypto_plugins.Machine.Ledger.{Runs}
use sailfish_crypto_plugins.Rnp.Key.{Key}
use sailfish_crypto_plugins.Rnp.KeyArray.Added.{Added, add_keys-Adds, Added-add_keys}
use sailfish_crypto_plugins.Rnp.Sign.{
  read_signature, signature_of, execute_sign, sign_armored, run_sign,
}

-- What is left to do after the keys.
abbrev Executed : (H : Host) → H.SignOp → H.Output → H.State → Bytes → H.State → Type 0
Executed H op out s bytes s' =
    (H.op_sign_execute op s ≡ (ok tt, s')) × (H.output_memory_get_buf out s' ≡ ok bytes)

module _ {H : Host} where
  -- The calls on an operation `op`, all successful, that end with `bytes` in the output.
  pub record RunsOp (op : H.SignOp) (out : H.Output) (keys : List (Key H)) (armor : Bool)
      (s s' : H.State) (bytes : Bytes) : Type 0 where
    pub armored : H.State
    pub signers : H.State
    pub arms : H.op_sign_set_armor op armor s ≡ (ok tt, armored)
    pub adds : Added "sign" (H.op_sign_add_signature op) keys armored signers
    pub executes : H.op_sign_execute op signers ≡ (ok tt, s')
    pub reads : H.output_memory_get_buf out s' ≡ ok bytes

  -- The result is empty, or comes from an operation that librnp carried out.
  abbrev pub Signed : H.SignOp → H.Output → List (Key H) → Bool → H.State → Bytes → H.State → Type 0
  Signed op out keys armor s bytes s' = (bytes ≡ []) ⊎ RunsOp op out keys armor s s' bytes

  read_signature-Runs :
      (out : H.Output) (r : Ret Bytes) (w : World H)
      → H.output_memory_get_buf out w.ffi ≡ r
      → Runs w (λ bytes s'. (s' ≡ w.ffi) × ((bytes ≡ []) ⊎ (r ≡ ok bytes))) (read_signature r w)
  unfolding read_signature
  read_signature-Runs out (err c) w f = record {
    value = [];
    state = w.ffi;
    run = refl;
    why = (refl, inl refl);
  }
  read_signature-Runs out (ok bytes) w f = record {
    value = bytes;
    state = w.ffi;
    run = refl;
    why = (refl, inr refl);
  }

  signature_of-Runs :
      (op : H.SignOp) (out : H.Output) (r : Ret Unit) (s s1 : H.State) (w : World H)
      → H.op_sign_execute op s ≡ (r, s1)
      → Runs w
          (λ bytes s'. (bytes ≡ []) ⊎ Executed H op out s bytes s')
          (signature_of out r (record w { ffi = s1 }))
  unfolding signature_of
  signature_of-Runs op out (err c) s s1 w e = record {
    value = [];
    state = s1;
    run = refl;
    why = inl refl;
  }
  signature_of-Runs op out (ok _) s s1 w e =
      let b = read_signature-Runs out _ (record w { ffi = s1 }) refl in
      record {
        value = b.value;
        state = s1;
        run = rw b.run (rw b.why.0);
        why = elim b.why.1 [ inl n ↦ inl n | inr g ↦ inr (e, g) ];
      }

  execute_sign-Runs :
      (op : H.SignOp) (out : H.Output) (done : Bool) (w : World H)
      → Runs w
          (λ bytes s'. (bytes ≡ []) ⊎ ((done ≡ true) × Executed H op out w.ffi bytes s'))
          (execute_sign op out done w)
  unfolding execute_sign
  execute_sign-Runs op out false w = record {
    value = [];
    state = w.ffi;
    run = refl;
    why = inl refl;
  }
  execute_sign-Runs op out true w =
      let b = signature_of-Runs op out _ w.ffi _ w refl in
      record {
        value = b.value;
        state = b.state;
        run = b.run;
        why = elim b.why [ inl n ↦ inl n | inr g ↦ inr (refl, g) ];
      }

  sign_armored-Runs :
      (op : H.SignOp) (out : H.Output) (keys : List (Key H)) (armor : Bool) (r : Ret Unit)
      (s s1 : H.State) (w : World H)
      → H.op_sign_set_armor op armor s ≡ (r, s1)
      → Runs w (Signed op out keys armor s) (sign_armored op out keys r (record w { ffi = s1 }))
  unfolding sign_armored
  sign_armored-Runs op out keys armor (err c) s s1 w e = record {
    value = [];
    state = s1;
    run = refl;
    why = inl refl;
  }
  sign_armored-Runs op out keys armor (ok _) s s1 w e =
      let a = add_keys-Adds "sign" (H.op_sign_add_signature op) keys (record w { ffi = s1 }) in
      let b = execute_sign-Runs op out a.value (record w { ffi = a.state }) in
      record {
        value = b.value;
        state = b.state;
        run = rw a.run b.run;
        why = elim b.why [
          | inl n ↦ inl n
          | inr (done, executed) ↦ elim a.why [
            | inl undone ↦ absurd (false≢true (sym undone ∙ done))
            | inr adds ↦ inr (record {
              armored = s1;
              signers = a.state;
              arms = e;
              adds = adds;
              executes = executed.0;
              reads = executed.1;
            })
          ]
        ];
      }

  -- `run_sign` takes and gives back no handle.
  pub run_sign-Runs :
      (op : H.SignOp) (out : H.Output) (keys : List (Key H)) (armor : Bool) (w : World H)
      → Runs w (Signed op out keys armor w.ffi) (run_sign op out keys armor w)
  unfolding run_sign
  run_sign-Runs op out keys armor w = sign_armored-Runs op out keys armor _ w.ffi _ w refl

  pub RunsOp-run_sign :
      (op : H.SignOp) (out : H.Output) (keys : List (Key H)) (armor : Bool) (w : World H)
      (s' : H.State) (bytes : Bytes)
      → RunsOp op out keys armor w.ffi s' bytes
      → run_sign op out keys armor w ≡ (bytes, record w { ffi = s' })
  unfolding run_sign sign_armored execute_sign signature_of read_signature
  RunsOp-run_sign op out keys armor w s' bytes r = rw r.arms (
      rw (Added-add_keys "sign" (H.op_sign_add_signature op) (record w { ffi = r.armored }) r.adds)
        (rw r.executes (rw r.reads)))
