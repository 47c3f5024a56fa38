-- ===== src/Tests/MailExamples.antt =====
-- The theorems on mail parts at concrete inputs.
use sailfish_crypto_plugins.Common.{true, ◌≡◌, refl, ap, false, some, [], ◌∷◌, inr}
use sailfish_crypto_plugins.Rnp.Key.{load}
use sailfish_crypto_plugins.Rnp.KeyAccess.{from_fingerprint}
use sailfish_crypto_plugins.Rnp.KeyArray.{add_keys}
use sailfish_crypto_plugins.Rnp.Ring.{construct, new_rnp}
use sailfish_crypto_plugins.Rnp.Sign
use sailfish_crypto_plugins.Qmf.Summary.{signature_valid, key_missing}
use sailfish_crypto_plugins.Qmf.Signing
use sailfish_crypto_plugins.Qmf.Signing.{part_has_signature, with_signature}
use sailfish_crypto_plugins.Qmf.Signing.Copies.{Copied, part_to_sign-Copied}
use sailfish_crypto_plugins.Qmf.Signing.Outcome.{signed_of}
use sailfish_crypto_plugins.Qmf.Signing.Result.{sign_result}
use sailfish_crypto_plugins.Qmf.Signing.Verification.{
  Verifies, both_available, verify_signature_lem,
}
use sailfish_crypto_plugins.Qmf.Signing.RoundTrip.{SignVerify, sign-verify}
use sailfish_crypto_plugins.Qmf.Calls.{call_sign, call_decrypt, run_mail_calls, run_mail_calls_lem}
use sailfish_crypto_plugins.Qmf.Decryption
use sailfish_crypto_plugins.Qmf.Decryption.{can_decrypt}
use sailfish_crypto_plugins.Qmf.Decryption.Outcome.{Decrypts, decrypt-Decrypts}
use sailfish_crypto_plugins.Tests.Toy.{toy}
use sailfish_crypto_plugins.Tests.ToyMail.{toy_mail, toy_laws, toy_leaf, toy_encrypted, ToyPart}

abbrev letter : ToyPart
letter = toy_leaf (72 ∷ 105 ∷ 10 ∷ [])

abbrev signed_letter : ToyPart
signed_letter = with_signature toy_mail (signed_of toy_mail letter) (65 ∷ 66 ∷ []) letter

letter_unsigned : part_has_signature toy_mail letter ≡ false
unfolding part_has_signature
letter_unsigned = refl

letter_valid :
    (Signing.sign toy toy_mail (some letter) ("P" ∷ []) 0).0 ≡ (signature_valid, some signed_letter)
unfolding Signing.sign from_fingerprint load Sign.sign add_keys
letter_valid = refl

-- The contents of both parts are there, so that the signature is looked at.
signed_letter_available : both_available toy_mail signed_letter ≡ true
unfolding with_signature part_has_signature
signed_letter_available = refl

part_to_sign-Copied_example : Copied toy_mail toy_laws letter (Signing.part_to_sign toy_mail letter)
part_to_sign-Copied_example = part_to_sign-Copied toy_mail toy_laws letter letter_unsigned

sign-verify_example : SignVerify toy toy_mail toy_laws letter signed_letter ("P" ∷ []) 0
sign-verify_example =
    sign-verify toy toy_mail toy_laws letter signed_letter ("P" ∷ []) 0 (inr refl) letter_unsigned
      letter_valid

-- The secret ring is loaded and closed, six calls sign, and one ends librnp.
sign_result_example :
    Signing.sign toy toy_mail (some letter) ("P" ∷ []) 0
    ≡ ((signature_valid, some signed_letter), 10)
unfolding construct new_rnp
sign_result_example = sign_result toy toy_mail letter ("P" ∷ []) 0

-- A key that is not there.
sign_missing : (Signing.sign toy toy_mail (some letter) ("X" ∷ []) 0).0 ≡ (key_missing, some letter)
unfolding construct new_rnp
sign_missing = ap (λ o. o.0) (sign_result toy toy_mail letter ("X" ∷ []) 0)

verify_signature_lem_example :
    Verifies toy toy_mail signed_letter 0 (Signing.verify_signature toy toy_mail signed_letter 0)
verify_signature_lem_example = verify_signature_lem toy toy_mail signed_letter 0

decrypt-Decrypts_example :
    Decrypts toy_mail toy_laws toy
      (toy_encrypted (1 ∷ []))
      0
      (Decryption.decrypt toy toy_mail (some (toy_encrypted (1 ∷ []))) 0)
decrypt-Decrypts_example = decrypt-Decrypts toy_mail toy_laws toy (toy_encrypted (1 ∷ [])) 0

-- A signature, with ten calls, and a decryption, with eight more.
run_mail_calls_lem_example :
    run_mail_calls toy toy_mail
      (call_sign (some letter) ("P" ∷ []) ∷ call_decrypt (some (toy_encrypted (1 ∷ []))) ∷ [])
      0
    ≡ 18
unfolding construct new_rnp can_decrypt
run_mail_calls_lem_example =
    run_mail_calls_lem toy toy_mail
      (call_sign (some letter) ("P" ∷ []) ∷ call_decrypt (some (toy_encrypted (1 ∷ []))) ∷ []) 0
