-- ===== src/Tests/UnlockExamples.antt =====
-- The theorems on the passphrase callback at concrete inputs.
use sailfish_crypto_plugins.Common.{String, ◌≡◌, refl, Option, some, [], ◌∷◌, arith}
use sailfish_crypto_plugins.Host.{Bytes}
use sailfish_crypto_plugins.Rnp.Unlock.{Outcome, succeeded, unlock_key}
use sailfish_crypto_plugins.Rnp.Unlock.Buffer.{
  c_string, Answered, unlock_key_lem, unlock_key-c_string,
}
use sailfish_crypto_plugins.Tests.Toy.{toy, toy_world}

abbrev secret_word : Bytes
secret_word = 104 ∷ 105 ∷ []

abbrev four_bytes : Bytes
four_bytes = 9 ∷ 9 ∷ 9 ∷ 9 ∷ []

abbrev always : Option String → Outcome
always _ = succeeded secret_word

unlock_key_lem_example :
    let ((ok, buf'), w') = unlock_key {H = toy} always (some 0) "sign" four_bytes toy_world in
    (w' ≡ toy_world) × Answered four_bytes ok buf' (succeeded secret_word)
unlock_key_lem_example = unlock_key_lem {H = toy} always (some 0) "sign" four_bytes toy_world

unlock_key-c_string_example :
    c_string (unlock_key {H = toy} always (some 0) "sign" four_bytes toy_world).0.1 ≡ secret_word
unlock_key-c_string_example =
    unlock_key-c_string {H = toy} always (some 0) "sign" four_bytes toy_world secret_word refl
      (omega arith) (λ e. cc, (λ e. cc, tt))
