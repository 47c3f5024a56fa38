-- ===== src/Plugin/Calls/Sound.antt =====
-- secrets/rnp/rnpkeys.h and secrets/rnp/rnpffi.h: each method keeps the plugin sound, and so do any
-- calls of them.
use sailfish_crypto_plugins.Common.{
  ◌≡◌, ◌⊎◌, refl, arith, inl, inr, Bool, true, false, ◌||◌, List, [], ◌∷◌, any,
}
use sailfish_crypto_plugins.Host.{Host}
use sailfish_crypto_plugins.Machine.{World}
use sailfish_crypto_plugins.Rnp.Ring.Sound.{IsSound}
use sailfish_crypto_plugins.Keys.Collections.Sound.{collection_names-IsSound, secret_names-IsSound}
use sailfish_crypto_plugins.Keys.Search.Sound.{find_secrets-IsSound}
use sailfish_crypto_plugins.Keys.Removal.Sound.{
  remove_secret-IsSound, remove_collection-IsSound, remove_standalone_secret-IsSound,
}
use sailfish_crypto_plugins.Ffi.Operations.Sound.{
  sign-IsSound, encrypt-IsSound, stored_key_identifiers-IsSound,
}
use sailfish_crypto_plugins.Ffi.Verification.Sound.{verify-IsSound, decrypt-IsSound}
use sailfish_crypto_plugins.Plugin.Calls.{
  KeysCall, call_collection_names, call_secret_names, call_find_secrets, call_remove_collection,
  call_remove_secret, call_remove_standalone_secret, FfiCall, call_stored_key_identifiers,
  call_sign, call_verify, call_encrypt, call_decrypt, PluginCall, of_keys, of_ffi, run_keys,
  run_ffi, run_call, run_calls, may_remove,
}

-- A call that removes is one after which `may` is true.
abbrev pub Allows : Bool → Bool → Type 0
Allows may removes = (removes ≡ false) ⊎ (may ≡ true)

allowed : {may : Bool} → Allows may true → may ≡ true
allowed (inl e) = absurd (ground arith)
allowed (inr e) = e

Allows-first : {may : Bool} (b c : Bool) → Allows may (b || c) → Allows may b
Allows-first true c (inl e) = absurd (ground arith)
Allows-first false c (inl e) = inl refl
Allows-first b c (inr e) = inr e

Allows-rest : {may : Bool} (b c : Bool) → Allows may (b || c) → Allows may c
Allows-rest true c (inl e) = absurd (ground arith)
Allows-rest false c (inl e) = inl e
Allows-rest b c (inr e) = inr e

module _ {H : Host} where
  -- A removal keeps the plugin sound where `may` is true.
  removing :
      {m : World H → World H} {may : Bool}
      → ((w : World H) → IsSound true w → IsSound true (m w))
      → Allows may true
      → (w : World H) → IsSound may w
      → IsSound may (m w)
  removing h a w sound = rw (allowed a) (h w (rw (allowed a) at sound))

  module _ {may : Bool} where
    run_keys-IsSound :
        (c : KeysCall) (w : World H)
        → Allows may (may_remove (of_keys c))
        → IsSound may w
        → IsSound may (run_keys c w).1
    unfolding run_keys
    run_keys-IsSound call_collection_names w a sound = collection_names-IsSound w sound
    run_keys-IsSound (call_secret_names name) w a sound = secret_names-IsSound name w sound
    run_keys-IsSound (call_find_secrets name filter op) w a sound =
        find_secrets-IsSound op filter name w sound
    run_keys-IsSound (call_remove_collection name) w a sound =
        removing (remove_collection-IsSound name) a w sound
    run_keys-IsSound (call_remove_secret collection name) w a sound =
        removing (remove_secret-IsSound collection name) a w sound
    run_keys-IsSound (call_remove_standalone_secret name) w a sound =
        removing (remove_standalone_secret-IsSound name) a w sound
    run_keys-IsSound _ w a sound = sound

    run_ffi-IsSound : (c : FfiCall) (w : World H) → IsSound may w → IsSound may (run_ffi c w).1
    unfolding run_ffi
    run_ffi-IsSound (call_stored_key_identifiers name identifiers) w sound =
        stored_key_identifiers-IsSound name identifiers w sound
    run_ffi-IsSound (call_sign message key parameters signature) w sound =
        sign-IsSound message key parameters signature w sound
    run_ffi-IsSound (call_verify signature message key status) w sound =
        verify-IsSound signature message key status w sound
    run_ffi-IsSound (call_encrypt message key parameters encrypted) w sound =
        encrypt-IsSound message key parameters encrypted w sound
    run_ffi-IsSound (call_decrypt message key decrypted status) w sound =
        decrypt-IsSound message key decrypted status w sound
    run_ffi-IsSound _ w sound = sound

    run_call-IsSound :
        (c : PluginCall) (w : World H)
        → Allows may (may_remove c)
        → IsSound may w
        → IsSound may (run_call c w).1
    unfolding run_call
    run_call-IsSound (of_keys c) w a sound = run_keys-IsSound c w a sound
    run_call-IsSound (of_ffi c) w a sound = run_ffi-IsSound c w sound

    pub run_calls-IsSound :
        (cs : List PluginCall) (w : World H)
        → Allows may (any may_remove cs)
        → IsSound may w
        → IsSound may (run_calls cs w).1
    unfolding run_calls
    run_calls-IsSound [] w a sound = sound
    run_calls-IsSound (c ∷ cs) w a sound =
        run_calls-IsSound cs (run_call c w).1 (Allows-rest (may_remove c) (any may_remove cs) a)
          (run_call-IsSound c w (Allows-first (may_remove c) (any may_remove cs) a) sound)
