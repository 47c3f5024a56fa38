-- ===== src/Rnp/Decrypt/Operation.antt =====
-- rnp/rnp.cpp: `Rnp::decrypt` as a whole, against a description without handles.
use sailfish_crypto_plugins.Common.{ℕ, suc, ◌≡◌, inl, inr, refl, none, some, List, [], ◌∷◌, ◌++◌}
use sailfish_crypto_plugins.Host.{Host, Ret, ok, err, Bytes}
use sailfish_crypto_plugins.Machine.{
  World, Handle, Resource, release_ptr, give_back, handle, input, output, verify_op, key_handle,
  given, ◌>>=◌, Rnp,
}
use sailfish_crypto_plugins.Machine.Ledger.{release_head, release_among, Quiet}
use sailfish_crypto_plugins.Rnp.Ring.Opened.{secret_opened, MayOpenSecret, secret_keyring_lem}
use sailfish_crypto_plugins.Rnp.Encrypt.{gibibyte}
use sailfish_crypto_plugins.Rnp.Verify.Signatures.{signatures_at, signatures_of_lem}
use sailfish_crypto_plugins.Rnp.Decrypt.{
  Signers, append_signers, read_decrypted, decrypted_of, decrypt_with_op, decrypt_to_output,
  decrypt_from_input, finish_decrypt, decrypt,
}
use sailfish_crypto_plugins.Rnp.Decrypt.Recipient.{
  Leak, none_left, one_left, Leaves, used_recipient-Leaves,
}

-- The plain text, the signers, the plugin and librnp's state after the last call.
abbrev pub Decrypted : Host → Type 0
Decrypted H = (Bytes × Signers) × Rnp × H.State

abbrev appended_at : (H : Host) → H.State → H.VerifyOp → Signers → Signers
appended_at H s op none = none
appended_at H s op (some list) = some (list ++ signatures_at H s op)

abbrev read_at : (H : Host) → H.State → H.VerifyOp → Signers → Ret Bytes → Bytes × Signers
read_at H s op signers (err c) = ([], signers)
read_at H s op signers (ok bytes) = (bytes, appended_at H s op signers)

abbrev executed_at :
    (H : Host) → H.VerifyOp → H.Output → Signers → Ret Unit × H.State → (Bytes × Signers) × H.State
executed_at H op o signers (err c, s) = (([], signers), s)
executed_at H op o signers (ok _, s) = (read_at H s op signers (H.output_memory_get_buf o s), s)

abbrev with_op_at : (H : Host) → Rnp → H.Output → Signers → Ret H.VerifyOp × H.State → Decrypted H
with_op_at H r o signers (err c, s) = (([], signers), r, s)
with_op_at H r o signers (ok op, s) =
    let (v, s') = executed_at H op o signers (H.op_verify_execute op s) in (v, r, s')

abbrev to_output_at : (H : Host) → Rnp → H.Input → Signers → Ret H.Output × H.State → Decrypted H
to_output_at H r i signers (err c, s) = (([], signers), r, s)
to_output_at H r i signers (ok o, s) =
    let (r', s') = secret_opened H r s in with_op_at H r' o signers (H.op_verify_create i o s')

abbrev from_input_at : (H : Host) → Rnp → Signers → Ret H.Input × H.State → Decrypted H
from_input_at H r signers (err c, s) = (([], signers), r, s)
from_input_at H r signers (ok i, s) = to_output_at H r i signers (H.output_to_memory gibibyte s)

-- The message and the output are taken, the secret ring is opened if need be, and where librnp makes
-- the operation and executes it, the output and the signatures are read.
abbrev pub decrypted : (H : Host) → Rnp → H.State → Bytes → Signers → Decrypted H
decrypted H r s message signers = from_input_at H r signers (H.input_from_memory message s)

with_op_at_rnp :
    (H : Host) (r : Rnp) (o : H.Output) (signers : Signers) (q : Ret H.VerifyOp × H.State)
    → (with_op_at H r o signers q).1 ≡ r
with_op_at_rnp H r o signers (err c, s) = refl
with_op_at_rnp H r o signers (ok op, s) = refl

to_output-MayOpenSecret :
    (H : Host) (r : Rnp) (i : H.Input) (signers : Signers) (q : Ret H.Output × H.State)
    → MayOpenSecret H r (to_output_at H r i signers q).1
to_output-MayOpenSecret H r i signers (err c, s) = inl refl
to_output-MayOpenSecret H r i signers (ok o, s) = inr (s, with_op_at_rnp H _ o signers _)

from_input-MayOpenSecret :
    (H : Host) (r : Rnp) (signers : Signers) (q : Ret H.Input × H.State)
    → MayOpenSecret H r (from_input_at H r signers q).1
from_input-MayOpenSecret H r signers (err c, s) = inl refl
from_input-MayOpenSecret H r signers (ok i, s) = to_output-MayOpenSecret H r i signers _

pub decrypted-MayOpenSecret :
    (H : Host) (r : Rnp) (s : H.State) (message : Bytes) (signers : Signers)
    → MayOpenSecret H r (decrypted H r s message signers).1
decrypted-MayOpenSecret H r s message signers =
    from_input-MayOpenSecret H r signers (H.input_from_memory message s)

module _ {H : Host} where
  append_signers_lem :
      (op : H.VerifyOp) (signers : Signers) (w : World H)
      → Quiet (append_signers op signers) w (appended_at H w.ffi op signers)
  unfolding append_signers
  append_signers_lem op none w = (w.next, refl)
  append_signers_lem op (some list) w = let (n, e) = signatures_of_lem op list w in (n, rw e)

  read_decrypted-Leaves :
      (op : H.VerifyOp) (signers : Signers) (r : Ret Bytes) (w : World H)
      → Leaves w (read_at H w.ffi op signers r) (read_decrypted op signers r w)
  unfolding read_decrypted
  read_decrypted-Leaves op signers (err c) w = ([], none_left, w.next, refl)
  read_decrypted-Leaves op signers (ok bytes) w =
      let (n, e) = append_signers_lem op signers w in
      let (xs, l, m, f) =
        used_recipient-Leaves (H.op_verify_get_used_recipient op w.ffi) (record w { next = n }) in
      (xs, l, m, rw e (rw f))

  decrypted_of-Leaves :
      (op : H.VerifyOp) (o : H.Output) (signers : Signers) (q : Ret Unit × H.State) (w : World H)
      → let (v, s) = executed_at H op o signers q in
        Leaves (record w { ffi = s }) v (decrypted_of op o signers q.0 (record w { ffi = q.1 }))
  unfolding decrypted_of
  decrypted_of-Leaves op o signers (err c, s) w = ([], none_left, w.next, refl)
  decrypted_of-Leaves op o signers (ok _, s) w =
      read_decrypted-Leaves op signers (H.output_memory_get_buf o s) (record w { ffi = s })

  module _ (signers : Signers) (w : World H) where
    abbrev pub Ends : Decrypted H → (Bytes × Signers) × World H → Type 0
    Ends v out =
        (xs : List Resource) × Leak xs
        × (n : ℕ) × (out ≡ (v.0, record w { rnp = v.1; ffi = v.2; next = n; live = xs ++ w.live }))

    abbrev in_handle : H.Input → Handle H.Input
    in_handle i = record { addr = w.next; obj = i }

    abbrev out_handle : H.Output → Handle H.Output
    out_handle o = record { addr = suc w.next; obj = o }

    abbrev two : List Resource
    two = handle output (suc w.next) ∷ handle input w.next ∷ []

    free_two :
        (r : Rnp) (s : H.State) (n : ℕ) (v : Bytes × Signers) (i : H.Input) (o : H.Output)
        → finish_decrypt
            (record {
              source = some (in_handle i);
              target = some (out_handle o);
              op = none;
              ret = v.0;
              signers = v.1;
            })
            (record w { rnp = r; ffi = s; next = n; live = two ++ w.live })
          ≡ (v, record w { rnp = r; ffi = s; next = n })
    unfolding finish_decrypt release_ptr give_back
    free_two r s n v i o =
        let w' = record w { rnp = r; ffi = s; next = n } in
        rw (release_among (handle input w.next) (handle output (suc w.next) ∷ []) w' refl)
          (rw (release_head (handle output (suc w.next)) w'))

    free_three :
        {xs : List Resource} (l : Leak xs) (r : Rnp) (s : H.State) (n a : ℕ) (v : Bytes × Signers)
        (i : H.Input) (o : H.Output) (op : H.VerifyOp)
        → finish_decrypt
            (record {
              source = some (in_handle i);
              target = some (out_handle o);
              op = some (record { addr = a; obj = op });
              ret = v.0;
              signers = v.1;
            })
            (record w {
              rnp = r;
              ffi = s;
              next = n;
              live = xs ++ (handle verify_op a ∷ (two ++ w.live));
            })
          ≡ (v, record w { rnp = r; ffi = s; next = n; live = xs ++ w.live })
    unfolding finish_decrypt release_ptr give_back
    free_three none_left r s n a v i o op =
        let w' = record w { rnp = r; ffi = s; next = n } in
        rw
          (release_among (handle input w.next)
            (handle verify_op a ∷ handle output (suc w.next) ∷ []) w' refl)
          (rw (release_among (handle output (suc w.next)) (handle verify_op a ∷ []) w' refl)
            (rw (release_head (handle verify_op a) w')))
    free_three (one_left b) r s n a v i o op =
        let w' = record w { rnp = r; ffi = s; next = n } in
        rw
          (release_among (handle input w.next)
            (handle key_handle b ∷ handle verify_op a ∷ handle output (suc w.next) ∷ []) w' refl)
          (rw
            (release_among (handle output (suc w.next))
              (handle key_handle b ∷ handle verify_op a ∷ []) w' refl)
            (rw (release_among (handle verify_op a) (handle key_handle b ∷ []) w' refl)))

    after_op :
        (i : H.Input) (o : H.Output) (q : Ret H.VerifyOp × H.State) (r : Rnp) (n : ℕ)
        → let (p, w') =
            given verify_op q.0 (record w { rnp = r; ffi = q.1; next = n; live = two ++ w.live }) in
          Ends
            (with_op_at H r o signers q)
            ((decrypt_with_op signers (in_handle i) (out_handle o) p >>= finish_decrypt) w')
    unfolding decrypt_with_op
    after_op i o (err c, s) r n = ([], none_left, n, free_two r s n ([], signers) i o)
    after_op i o (ok op, s) r n =
        let q = H.op_verify_execute op s in
        let (v, s') = executed_at H op o signers q in
        let (xs, l, m, e) = decrypted_of-Leaves op o signers q (record w {
          rnp = r;
          ffi = s;
          next = suc n;
          live = handle verify_op n ∷ (two ++ w.live);
        }) in
        (xs, l, m, rw e (free_three l r s' m n v i o op))

    after_output :
        (i : H.Input) (q : Ret H.Output × H.State)
        → let (p, w') =
            given output q.0
              (record w { ffi = q.1; next = suc w.next; live = handle input w.next ∷ w.live }) in
          Ends
            (to_output_at H w.rnp i signers q)
            ((decrypt_to_output signers (in_handle i) p >>= finish_decrypt) w')
    unfolding decrypt_to_output finish_decrypt release_ptr
    after_output i (err c, s) = (
      [],
      none_left,
      suc w.next,
      rw (release_head (handle input w.next) (record w { ffi = s; next = suc w.next })),
    )
    after_output i (ok o, s) =
        let (n, e) =
          secret_keyring_lem
            (record w { ffi = s; next = suc (suc w.next); live = two ++ w.live }) in
        let (r', s') = secret_opened H w.rnp s in
        let (xs, l, m, f) = after_op i o (H.op_verify_create i o s') r' n in (xs, l, m, rw e f)

    after_input :
        (q : Ret H.Input × H.State)
        → let (p, w') = given input q.0 (record w { ffi = q.1 }) in
          Ends
            (from_input_at H w.rnp signers q)
            ((decrypt_from_input signers p >>= finish_decrypt) w')
    unfolding decrypt_from_input finish_decrypt release_ptr
    after_input (err c, s) = ([], none_left, w.next, refl)
    after_input (ok i, s) = after_output i (H.output_to_memory gibibyte s)

  -- `Rnp::decrypt` opens the secret key ring if need be and, where librnp makes the operation and
  -- executes it, returns what the output holds and appends the operation's signatures to the list
  -- that it is given, if it is given one; on every other path it returns nothing and leaves the list
  -- as it is. It frees the input, the output and the operation on every path, each once; it may
  -- leave one key's handle open, and nothing else.
  pub decrypt-Ends :
      (message : Bytes) (signers : Signers) (w : World H)
      → Ends signers w (decrypted H w.rnp w.ffi message signers) (decrypt message signers w)
  unfolding decrypt
  decrypt-Ends message signers w = after_input signers w (H.input_from_memory message w.ffi)
