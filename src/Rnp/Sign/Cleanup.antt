-- ===== src/Rnp/Sign/Cleanup.antt =====
-- rnp/rnp.cpp: `Rnp::sign` as a whole, from its first allocation to the label `out`.
use sailfish_crypto_plugins.Common.{
  ℕ, suc, ◌≡◌, ◌⊎◌, inl, inr, refl, Bool, none, some, List, [], ◌∷◌,
}
use sailfish_crypto_plugins.Host.{Host, Ret, ok, err, Bytes}
use sailfish_crypto_plugins.Machine.{
  World, Handle, release_ptr, give_back, handle, input, output, sign_op, given, new_handle, ◌>>=◌,
}
use sailfish_crypto_plugins.Machine.Ledger.{release_head, release_among, Settles}
use sailfish_crypto_plugins.Rnp.Key.{Key}
use sailfish_crypto_plugins.Rnp.Sign.{
  sign_with_op, sign_to_output, sign_from_input, finish_sign, sign, mebibyte,
}
use sailfish_crypto_plugins.Rnp.Sign.Protocol.{RunsOp, run_sign-Runs, RunsOp-run_sign}

module _ {H : Host} where
  -- The calls of a signature, all successful, from `s` to `s'`.
  pub record SignRun (message : Bytes) (keys : List (Key H)) (armor : Bool) (s : H.State)
      (bytes : Bytes) (s' : H.State) : Type 0 where
    pub i : H.Input
    pub o : H.Output
    pub op : H.SignOp
    pub with_input : H.State
    pub with_output : H.State
    pub with_op : H.State
    pub opens : H.input_from_memory message s ≡ (ok i, with_input)
    pub targets : H.output_to_memory mebibyte with_input ≡ (ok o, with_output)
    pub creates : H.op_sign_detached_create i o with_output ≡ (ok op, with_op)
    pub operates : RunsOp op o keys armor with_op s' bytes

  -- The three allocations, at the addresses from `a` on.
  module _ (keys : List (Key H)) (armor : Bool) (w : World H) where
    abbrev pub in_handle : H.Input → Handle H.Input
    in_handle i = record { addr = w.next; obj = i }

    abbrev pub out_handle : H.Output → Handle H.Output
    out_handle o = record { addr = suc w.next; obj = o }

    abbrev with_in : H.State → World H
    with_in s = record w { ffi = s; next = suc w.next; live = handle input w.next ∷ w.live }

    abbrev pub with_out : H.State → World H
    with_out s = record w {
      ffi = s;
      next = suc (suc w.next);
      live = handle output (suc w.next) ∷ handle input w.next ∷ w.live;
    }

    -- What the label frees, from the newest handle on.
    pub free_two :
        (s : H.State) (n : ℕ) (ret : Bytes) (i : H.Input) (o : H.Output)
        → finish_sign
            (record {
              source = some (in_handle i);
              target = some (out_handle o);
              op = none;
              ret = ret;
            })
            (record (with_out s) { next = n })
          ≡ (ret, record w { ffi = s; next = n })
    unfolding finish_sign release_ptr give_back
    free_two s n ret i o =
        rw
          (release_among (handle input w.next) (handle output (suc w.next) ∷ [])
            (record w { ffi = s; next = n }) refl)
          (rw (release_head (handle output (suc w.next)) (record w { ffi = s; next = n })))

    pub free_three :
        (s : H.State) (n : ℕ) (ret : Bytes) (i : H.Input) (o : H.Output) (op : Handle H.SignOp)
        → finish_sign
            (record {
              source = some (in_handle i);
              target = some (out_handle o);
              op = some op;
              ret = ret;
            })
            (record w {
              ffi = s;
              next = n;
              live =
                  handle sign_op op.addr
                  ∷ handle output (suc w.next)
                  ∷ handle input w.next
                  ∷ w.live;
            })
          ≡ (ret, record w { ffi = s; next = n })
    unfolding finish_sign release_ptr give_back
    free_three s n ret i o op =
        let w' = record w { ffi = s; next = n } in
        rw
          (release_among (handle input w.next)
            (handle sign_op op.addr ∷ handle output (suc w.next) ∷ []) w' refl)
          (rw (release_among (handle output (suc w.next)) (handle sign_op op.addr ∷ []) w' refl)
            (rw (release_head (handle sign_op op.addr) w')))

    abbrev Operated : H.Input → H.Output → H.State → Bytes → H.State → Type 0
    Operated i o s bytes s' =
        (bytes ≡ [])
        ⊎ ((op : H.SignOp) × (with_op : H.State) × (H.op_sign_detached_create i o s
              ≡ (ok op, with_op))
            × RunsOp op o keys armor with_op s' bytes)

    after_op :
        (i : H.Input) (o : H.Output) (r : Ret H.SignOp) (s s1 : H.State)
        → H.op_sign_detached_create i o s ≡ (r, s1)
        → let (g, w') = given sign_op r (with_out s1) in
          Settles w
            (Operated i o s)
            ((sign_with_op keys armor (in_handle i) (out_handle o) g >>= finish_sign) w')
    unfolding sign_with_op
    after_op i o (err c) s s1 e = record {
      value = [];
      state = s1;
      next = suc (suc w.next);
      run = free_two s1 _ [] i o;
      why = inl refl;
    }
    after_op i o (ok op) s s1 e =
        let r = run_sign-Runs op o keys armor (new_handle sign_op op (with_out s1)).1 in
        record {
          value = r.value;
          state = r.state;
          next = suc (suc (suc w.next));
          run =
              rw r.run
                (free_three r.state _ r.value i o (record { addr = suc (suc w.next); obj = op }));
          why = elim r.why [ inl n ↦ inl n | inr runs ↦ inr (op, s1, e, runs) ];
        }

    abbrev Targeted : H.Input → H.State → Bytes → H.State → Type 0
    Targeted i s bytes s' =
        (bytes ≡ [])
        ⊎ ((o : H.Output) × (with_output : H.State) × (H.output_to_memory mebibyte s
              ≡ (ok o, with_output))
            × (op : H.SignOp) × (with_op : H.State) × (H.op_sign_detached_create i o with_output
                ≡ (ok op, with_op))
            × RunsOp op o keys armor with_op s' bytes)

    after_output :
        (i : H.Input) (r : Ret H.Output) (s s1 : H.State)
        → H.output_to_memory mebibyte s ≡ (r, s1)
        → let (g, w') = given output r (with_in s1) in
          Settles w (Targeted i s) ((sign_to_output keys armor (in_handle i) g >>= finish_sign) w')
    unfolding sign_to_output finish_sign release_ptr
    after_output i (err c) s s1 e = record {
      value = [];
      state = s1;
      next = suc w.next;
      run = rw (release_head (handle input w.next) (record w { ffi = s1; next = suc w.next }));
      why = inl refl;
    }
    after_output i (ok o) s s1 e =
        let r = after_op i o _ s1 _ refl in
        record {
          value = r.value;
          state = r.state;
          next = r.next;
          run = r.run;
          why = elim r.why [
            | inl n ↦ inl n
            | inr (op, sop, f, runs) ↦ inr (o, s1, e, op, sop, f, runs)
          ];
        }

    after_input :
        (message : Bytes) (r : Ret H.Input) (s s1 : H.State)
        → H.input_from_memory message s ≡ (r, s1)
        → let (g, w') = given input r (record w { ffi = s1 }) in
          Settles w
            (λ bytes s'. (bytes ≡ []) ⊎ SignRun message keys armor s bytes s')
            ((sign_from_input keys armor g >>= finish_sign) w')
    unfolding sign_from_input finish_sign release_ptr
    after_input message (err c) s s1 e = record {
      value = [];
      state = s1;
      next = w.next;
      run = refl;
      why = inl refl;
    }
    after_input message (ok i) s s1 e =
        let r = after_output i _ s1 _ refl in
        record {
          value = r.value;
          state = r.state;
          next = r.next;
          run = r.run;
          why = elim r.why [
            | inl n ↦ inl n
            | inr (o, so, f, op, sop, g, runs) ↦ inr (record {
              i = i;
              o = o;
              op = op;
              with_input = s1;
              with_output = so;
              with_op = sop;
              opens = e;
              targets = f;
              creates = g;
              operates = runs;
            })
          ];
        }

  -- `Rnp::sign` frees the input, the output and the operation that it made, each once and on every
  -- path, and leaves the key rings alone. Its result is empty, or librnp took the message, set the
  -- armor asked for, was given every key before the first null one, each after saying that it may
  -- sign, executed the operation, and the result is what the output held then.
  pub sign-Settles :
      (message : Bytes) (keys : List (Key H)) (armor : Bool) (w : World H)
      → Settles w
          (λ bytes s'. (bytes ≡ []) ⊎ SignRun message keys armor w.ffi bytes s')
          (sign message keys armor w)
  unfolding sign
  sign-Settles message keys armor w = after_input keys armor w message _ w.ffi _ refl

  -- If each of the calls of a signature succeeds, then `Rnp::sign` returns what the output holds, and
  -- nothing is left open.
  SignRun-sign :
      (message bytes : Bytes) (keys : List (Key H)) (armor : Bool) (w : World H) (s' : H.State)
      → SignRun message keys armor w.ffi bytes s'
      → sign message keys armor w ≡ (bytes, record w { ffi = s'; next = suc (suc (suc w.next)) })
  unfolding sign sign_from_input sign_to_output sign_with_op
  SignRun-sign message bytes keys armor w s' r = rw r.opens (
      rw r.targets (
        rw r.creates (
          rw
            (RunsOp-run_sign r.op r.o keys armor
              (new_handle sign_op r.op (with_out keys armor w r.with_op)).1 s' bytes r.operates)
            (free_three keys armor w s' _ bytes r.i r.o
              (record { addr = suc (suc w.next); obj = r.op })))))
