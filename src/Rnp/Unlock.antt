-- ===== src/Rnp/Unlock.antt =====
-- rnp/rnp.cpp, `unlock`, which librnp calls for a passphrase. The dialogue is Sailfish's: the model
-- takes its outcome.
pub mod Buffer
use sailfish_crypto_plugins.Common.{
  ℕ, ◌≤◌, ◌≡◌, Bool, true, false, String, Option, none, some, [], ◌∷◌, ◌++◌, length, length-append,
  drop, ltb, str_eq, if◌then◌else◌, arith,
}
use sailfish_crypto_plugins.Host.{Host, Bytes}
use sailfish_crypto_plugins.Machine.{M, pure, fetch_text, ◌>>=◌}
use sailfish_crypto_plugins.Rnp.Key.{take_text}

-- What the request's result is, and what the user typed.
pub data Outcome : Type 0 where
  succeeded : Bytes → Outcome
  failed : Outcome

-- The instruction of the prompt, if it has one.
unfoldable pub instruction : Host → String → String → Option String
instruction H context fp =
    if str_eq context "sign"
    then some (H.string_arg "Unlock key %1 to sign" (H.string_right fp 8))
    else if str_eq context "decrypt"
    then some (H.string_arg "Unlock key %1 to decrypt" (H.string_right fp 8))
    else none

-- Does the answer succeed, and what is written from the start of the buffer.
unfoldable pub unlock : Outcome → ℕ → Bool × Option Bytes
unlock failed buf_len = (false, none)
unlock (succeeded passphrase) buf_len =
    (true, if ltb (length passphrase) buf_len then some (passphrase ++ 0 ∷ []) else none)

-- The buffer after the memcpy, if there is one.
abbrev overwrite : Option Bytes → Bytes → Bytes
overwrite none buf = buf
overwrite (some written) buf = written ++ drop (length written) buf

module _ {H : Host} where
  -- The whole callback: the dialogue gives an outcome for each prompt; what the buffer holds goes in
  -- and comes out.
  unfoldable pub unlock_key :
      (Option String → Outcome) → Option H.KeyRef → String → Bytes → M H (Bool × Bytes)
  unfolding unlock instruction take_text
  unlock_key ask key context buf = do
    fp ← fetch_text (H.key_get_fprint key) >>= take_text
    let (ok, written) = unlock (ask (instruction H context fp)) (length buf)
    pure (ok, overwrite written buf)
