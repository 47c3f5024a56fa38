-- ===== src/Rnp/Verify/Operation.antt =====
-- rnp/rnp.cpp: `Rnp::verify` as a whole, against a description without handles.
use sailfish_crypto_plugins.Common.{
  ℕ, suc, ◌≡◌, inl, inr, ◌==◌, false, arith, refl, none, some, List, [], ◌∷◌, ◌++◌,
}
use sailfish_crypto_plugins.Host.{Host, Ret, ok, err, Bytes}
use sailfish_crypto_plugins.Machine.{
  World, Handle, Resource, release_ptr, give_back, handle, input, verify_op, given, ◌>>=◌, Rnp,
}
use sailfish_crypto_plugins.Machine.Ledger.{release_head, release_among, Does}
use sailfish_crypto_plugins.Rnp.Ring.Opened.{public_opened, MayOpenPublic, public_keyring_lem}
use sailfish_crypto_plugins.Rnp.Verify.{
  Signature, verify_with_op, verify_with_signature, verify_from_input, finish_verify, verify,
}
use sailfish_crypto_plugins.Rnp.Verify.Signatures.{signatures_at, signatures_of_lem}

-- The signatures, the plugin and librnp's state after the last call.
abbrev pub Verified : Host → Type 0
Verified H = List Signature × Rnp × H.State

abbrev with_op_at : (H : Host) → Rnp → Ret H.VerifyOp × H.State → Verified H
with_op_at H r (err c, s) = ([], r, s)
with_op_at H r (ok op, s) = let s' = (H.op_verify_execute op s).1 in (signatures_at H s' op, r, s')

abbrev with_signature_at : (H : Host) → Rnp → H.Input → Ret H.Input × H.State → Verified H
with_signature_at H r i (err c, s) = ([], r, s)
with_signature_at H r i (ok g, s) =
    let (r', s') = public_opened H r s in with_op_at H r' (H.op_verify_detached_create i g s')

abbrev with_input_at : (H : Host) → Rnp → Bytes → Ret H.Input × H.State → Verified H
with_input_at H r signature (err c, s) = ([], r, s)
with_input_at H r signature (ok i, s) = with_signature_at H r i (H.input_from_memory signature s)

-- The message and the signature are taken, the public ring is opened if need be, and where librnp
-- makes the operation, it is executed, and its signatures are read whether that succeeds or not.
abbrev pub verified : (H : Host) → Rnp → H.State → Bytes → Bytes → Verified H
verified H r s message signature = with_input_at H r signature (H.input_from_memory message s)

with_op_at_rnp : (H : Host) (r : Rnp) (q : Ret H.VerifyOp × H.State) → (with_op_at H r q).1 ≡ r
with_op_at_rnp H r (err c, s) = refl
with_op_at_rnp H r (ok op, s) = refl

with_signature-MayOpenPublic :
    (H : Host) (r : Rnp) (i : H.Input) (q : Ret H.Input × H.State)
    → MayOpenPublic H r (with_signature_at H r i q).1
with_signature-MayOpenPublic H r i (err c, s) = inl refl
with_signature-MayOpenPublic H r i (ok g, s) = inr (s, with_op_at_rnp H _ _)

with_input-MayOpenPublic :
    (H : Host) (r : Rnp) (signature : Bytes) (q : Ret H.Input × H.State)
    → MayOpenPublic H r (with_input_at H r signature q).1
with_input-MayOpenPublic H r signature (err c, s) = inl refl
with_input-MayOpenPublic H r signature (ok i, s) = with_signature-MayOpenPublic H r i _

pub verified-MayOpenPublic :
    (H : Host) (r : Rnp) (s : H.State) (message signature : Bytes)
    → MayOpenPublic H r (verified H r s message signature).1
verified-MayOpenPublic H r s message signature =
    with_input-MayOpenPublic H r signature (H.input_from_memory message s)

module _ {H : Host} where
  module _ (w : World H) where
    abbrev in_handle : H.Input → Handle H.Input
    in_handle i = record { addr = w.next; obj = i }

    abbrev sig_handle : H.Input → Handle H.Input
    sig_handle g = record { addr = suc w.next; obj = g }

    abbrev two : List Resource
    two = handle input (suc w.next) ∷ handle input w.next ∷ []

    not_first : (a : ℕ) → (suc a == a) ≡ false
    not_first a = ground arith

    free_two :
        (r : Rnp) (s : H.State) (n : ℕ) (ret : List Signature) (i g : H.Input)
        → finish_verify
            (record {
              source = some (in_handle i);
              detached = some (sig_handle g);
              op = none;
              ret = ret;
            })
            (record w { rnp = r; ffi = s; next = n; live = two ++ w.live })
          ≡ (ret, record w { rnp = r; ffi = s; next = n })
    unfolding finish_verify release_ptr give_back
    free_two r s n ret i g =
        let w' = record w { rnp = r; ffi = s; next = n } in
        rw
          (release_among (handle input w.next) (handle input (suc w.next) ∷ []) w'
            (rw (not_first w.next)))
          (rw (release_head (handle input (suc w.next)) w'))

    free_three :
        (r : Rnp) (s : H.State) (n a : ℕ) (ret : List Signature) (i g : H.Input) (op : H.VerifyOp)
        → finish_verify
            (record {
              source = some (in_handle i);
              detached = some (sig_handle g);
              op = some (record { addr = a; obj = op });
              ret = ret;
            })
            (record w { rnp = r; ffi = s; next = n; live = handle verify_op a ∷ (two ++ w.live) })
          ≡ (ret, record w { rnp = r; ffi = s; next = n })
    unfolding finish_verify release_ptr give_back
    free_three r s n a ret i g op =
        let w' = record w { rnp = r; ffi = s; next = n } in
        rw
          (release_among (handle input w.next) (handle verify_op a ∷ handle input (suc w.next) ∷ [])
            w' (rw (not_first w.next)))
          (rw (release_among (handle input (suc w.next)) (handle verify_op a ∷ []) w' refl)
            (rw (release_head (handle verify_op a) w')))

    after_op :
        (i g : H.Input) (q : Ret H.VerifyOp × H.State) (r : Rnp) (n : ℕ)
        → let (p, w') =
            given verify_op q.0 (record w { rnp = r; ffi = q.1; next = n; live = two ++ w.live }) in
          Does w
            (with_op_at H r q)
            ((verify_with_op (in_handle i) (sig_handle g) p >>= finish_verify) w')
    unfolding verify_with_op
    after_op i g (err c, s) r n = (n, free_two r s n [] i g)
    after_op i g (ok op, s) r n =
        let s' = (H.op_verify_execute op s).1 in
        let (m, e) = signatures_of_lem op [] (record w {
          rnp = r;
          ffi = s';
          next = suc n;
          live = handle verify_op n ∷ (two ++ w.live);
        }) in
        (m, rw e (free_three r s' m n (signatures_at H s' op) i g op))

    after_signature :
        (i : H.Input) (q : Ret H.Input × H.State)
        → let (p, w') =
            given input q.0
              (record w { ffi = q.1; next = suc w.next; live = handle input w.next ∷ w.live }) in
          Does w
            (with_signature_at H w.rnp i q)
            ((verify_with_signature (in_handle i) p >>= finish_verify) w')
    unfolding verify_with_signature finish_verify release_ptr
    after_signature i (err c, s) = (
      suc w.next,
      rw (release_head (handle input w.next) (record w { ffi = s; next = suc w.next })),
    )
    after_signature i (ok g, s) =
        let w2 = record w { ffi = s; next = suc (suc w.next); live = two ++ w.live } in
        let (n, e) = public_keyring_lem w2 in
        let (r', s') = public_opened H w.rnp s in
        let (m, f) = after_op i g (H.op_verify_detached_create i g s') r' n in (m, rw e f)

    after_input :
        (signature : Bytes) (q : Ret H.Input × H.State)
        → let (p, w') = given input q.0 (record w { ffi = q.1 }) in
          Does w
            (with_input_at H w.rnp signature q)
            ((verify_from_input signature p >>= finish_verify) w')
    unfolding verify_from_input finish_verify release_ptr
    after_input signature (err c, s) = (w.next, refl)
    after_input signature (ok i, s) = after_signature i (H.input_from_memory signature s)

  -- `Rnp::verify` reports the signatures of the operation that librnp makes of the message and the
  -- signature, in librnp's order and whether or not its execution succeeds, and none where librnp
  -- makes no operation. It opens the public key ring if that was not open, frees both inputs and the
  -- operation on every path, each once, and leaves nothing else open.
  pub verify-Does :
      (message signature : Bytes) (w : World H)
      → Does w (verified H w.rnp w.ffi message signature) (verify message signature w)
  unfolding verify
  verify-Does message signature w = after_input w signature (H.input_from_memory message w.ffi)
