-- ===== src/Rnp/Verify.antt =====
-- rnp/rnp.cpp, `toSignature` and `Rnp::verify`.
pub mod Signatures
pub mod Operation
use sailfish_crypto_plugins.Common.{
  ℕ, zero, suc, ◌+◌, String, Option, none, some, List, [], ◌∷◌, ◌++◌, if◌then◌else◌,
}
use sailfish_crypto_plugins.Host.{
  Host, Ret, ok, err, Bytes, Code, key_not_found, signature_expired, signature_invalid, other,
}
use sailfish_crypto_plugins.Machine.{
  M, Handle, Ptr, input, verify_op, key_handle, sig_handle, handle, buffer, release, release_ptr,
  pure, query, call, create, fetch, fetch_text, ◌>>=◌, ◌>>◌,
}
use sailfish_crypto_plugins.Rnp.Key.{is_yes, take_text, give_found}
use sailfish_crypto_plugins.Rnp.Ring.{public_keyring}

-- Rnp::Signature::Status
pub data Status : Type 0 where
  valid expired missing_key invalid unknown : Status

-- Rnp::Signature
pub record Signature : Type 0 where
  pub status : Status
  pub keyid : String
  pub fingerprint : String

-- The switch over rnp_op_verify_signature_get_status.
abbrev pub status_of : Ret Unit → Status
status_of (ok _) = valid
status_of (err signature_expired) = expired
status_of (err key_not_found) = missing_key
status_of (err signature_invalid) = invalid
status_of (err (other n)) = unknown

module _ {H : Host} where
  missing_texts : Ret (Handle H.SigRef) → M H Signature
  unfolding take_text
  missing_texts (err c) = pure (record { status = missing_key; keyid = ""; fingerprint = "" })
  missing_texts (ok sig) = do
    id ← fetch_text (H.sig_get_keyid sig.obj) >>= take_text
    fp ← fetch_text (H.sig_get_key_fprint sig.obj) >>= take_text
    release (handle sig_handle sig.addr)
    pure (record { status = missing_key; keyid = id; fingerprint = fp })

  -- Where rnp_op_verify_signature_get_key fails.
  without_key : H.VerifySig → Code → M H Signature
  unfolding missing_texts
  without_key vsig key_not_found = fetch sig_handle (H.signature_get_handle vsig) >>= missing_texts
  without_key vsig c = pure (record { status = unknown; keyid = ""; fingerprint = "" })

  -- The primary, and the key id of `key`, once the primary is found.
  located_keyid : Handle H.KeyRef → Ret (Option H.KeyRef) → M H (Ptr H.KeyRef × String)
  unfolding take_text
  located_keyid key (err c) = pure (none, "")
  located_keyid key (ok r) = do
    pkey ← give_found (ok r)
    id ← fetch_text (H.key_get_keyid (some key.obj)) >>= take_text
    pure (pkey, id)

  subkey_keyid : Handle H.KeyRef → Ret String → M H String
  unfolding located_keyid release_ptr
  subkey_keyid key (err c) = pure ""
  subkey_keyid key (ok fprint) = do
    found ← query (H.locate_key "fingerprint" fprint) >>= located_keyid key
    release (buffer fprint)
    release_ptr key_handle found.0
    pure found.1

  -- The text of a successful query, or else the one given.
  text_or : String → Ret String → M H String
  text_or s (err c) = pure s
  text_or s (ok t) = do release (buffer t); pure (H.from_latin1 t)

  key_id : Handle H.KeyRef → M H String
  unfolding subkey_keyid take_text
  key_id key = do
    primary ← query (H.key_is_primary (some key.obj))
    if is_yes primary
        then (fetch_text (H.key_get_keyid (some key.obj)) >>= take_text)
        else (fetch_text (H.key_get_primary_fprint (some key.obj)) >>= subkey_keyid key)

  with_key : H.VerifySig → Handle H.KeyRef → M H Signature
  unfolding key_id text_or take_text
  with_key vsig key = do
    fp ← fetch_text (H.key_get_fprint (some key.obj)) >>= take_text
    id ← key_id key
    fp' ← fetch_text (H.key_get_primary_fprint (some key.obj)) >>= text_or fp
    release (handle key_handle key.addr)
    status ← query (H.signature_get_status vsig)
    pure (record { status = status_of status; keyid = id; fingerprint = fp' })

  keyed_signature : H.VerifySig → Ret (Handle H.KeyRef) → M H Signature
  unfolding without_key with_key
  keyed_signature vsig (err c) = without_key vsig c
  keyed_signature vsig (ok key) = with_key vsig key

  -- toSignature(rnp_ffi_t ffi, rnp_op_verify_signature_t vsig)
  unfoldable pub to_signature : H.VerifySig → M H Signature
  unfolding keyed_signature
  to_signature vsig = fetch key_handle (H.signature_get_key vsig) >>= keyed_signature vsig

  append_signature : List Signature → Ret H.VerifySig → M H (List Signature)
  unfolding to_signature
  append_signature ret (err c) = pure ret
  append_signature ret (ok vsig) = do s ← to_signature vsig; pure (ret ++ s ∷ [])

  -- The loop over the signatures from the `i`-th on, with the rounds that are left.
  append_signatures : H.VerifyOp → ℕ → ℕ → List Signature → M H (List Signature)
  unfolding append_signature
  append_signatures op zero i ret = pure ret
  append_signatures op (suc rounds) i ret = do
    ret' ← query (H.op_verify_get_signature_at op i) >>= append_signature ret
    append_signatures op rounds (i + 1) ret'

  counted_signatures : H.VerifyOp → List Signature → Ret ℕ → M H (List Signature)
  unfolding append_signatures
  counted_signatures op ret (err c) = pure ret
  counted_signatures op ret (ok len) = append_signatures op len 0 ret

  -- The signatures of an operation, behind those in `ret`.
  unfoldable pub signatures_of : H.VerifyOp → List Signature → M H (List Signature)
  unfolding counted_signatures
  signatures_of op ret = query (H.op_verify_get_signature_count op) >>= counted_signatures op ret

-- The pointers that the label `out` frees, and the result.
pub record Locals (H : Host) : Type 0 where
  pub source : Ptr H.Input
  pub detached : Ptr H.Input
  pub op : Ptr H.VerifyOp
  pub ret : List Signature

module _ {H : Host} where
  verify_with_op : Handle H.Input → Handle H.Input → Ret (Handle H.VerifyOp) → M H (Locals H)
  verify_with_op i s (err c) =
      pure (record { source = some i; detached = some s; op = none; ret = [] })
  verify_with_op i s (ok op) = do
    call (H.op_verify_execute op.obj)
    ret ← signatures_of op.obj []
    pure (record { source = some i; detached = some s; op = some op; ret = ret })

  verify_with_signature : Handle H.Input → Ret (Handle H.Input) → M H (Locals H)
  unfolding verify_with_op
  verify_with_signature i (err c) =
      pure (record { source = some i; detached = none; op = none; ret = [] })
  verify_with_signature i (ok s) = do
    public_keyring
    op ← create verify_op (H.op_verify_detached_create i.obj s.obj)
    verify_with_op i s op

  verify_from_input : Bytes → Ret (Handle H.Input) → M H (Locals H)
  unfolding verify_with_signature
  verify_from_input signature (err c) =
      pure (record { source = none; detached = none; op = none; ret = [] })
  verify_from_input signature (ok i) =
      create input (H.input_from_memory signature) >>= verify_with_signature i

  -- The label `out`.
  finish_verify : Locals H → M H (List Signature)
  unfolding release_ptr
  finish_verify l = do
    release_ptr input l.source
    release_ptr input l.detached
    release_ptr verify_op l.op
    pure l.ret

  -- Rnp::verify(const QByteArray &data, const QByteArray &signature)
  unfoldable pub verify : Bytes → Bytes → M H (List Signature)
  unfolding verify_from_input finish_verify
  verify message signature = do
    i ← create input (H.input_from_memory message)
    l ← verify_from_input signature i
    finish_verify l
