-- ===== src/Qmf/Decryption.antt =====
-- qmf/rnp/plugin.cpp: `canDecrypt` and `decrypt` of `QMailCryptoRNP`.
pub mod Outcome
use sailfish_crypto_plugins.Common.{
  ℕ, String, Bool, true, false, Option, none, some, List, [], ◌∷◌, ◌&&◌, is_empty, ltb,
  if◌then◌else◌,
}
use sailfish_crypto_plugins.Host.{Host, Bytes}
use sailfish_crypto_plugins.Machine.{World, M, gpg_compat}
use sailfish_crypto_plugins.Rnp.Ring.{construct, destruct}
use sailfish_crypto_plugins.Rnp.Decrypt
use sailfish_crypto_plugins.Qmf.Mail.{
  Mail, DecryptionResult, CryptResult, decrypted, unsupported_protocol, unknown_crypt_error,
}
use sailfish_crypto_plugins.Qmf.Signing.{append_parts}

-- QMailCryptoRNP::passphraseCallback, which is not implemented.
abbrev passphrase_callback : String → String
passphrase_callback info = ""

module _ (m : Mail) where
  -- QMailCryptoRNP::canDecrypt
  unfoldable pub can_decrypt : m.Part → Bool
  can_decrypt part =
      if m.is_encrypted part
      then (let control = m.part_at 0 part in
          if m.matches "application" "pgp-encrypted" control && m.has_body control
          then m.starts_with "Version: 1" (m.text (m.body control))
          else false)
      else false

  -- The part takes over the parts of the mail, or its body.
  pub take_over : m.Part → m.Part → m.Part
  unfolding append_parts
  take_over mail part =
      let cleared = m.clear_parts part in
      if ltb 0 (m.part_count mail)
      then append_parts m (m.part_count mail) 0 mail
          (m.set_multipart_type (m.multipart_type mail) (m.parameters mail) cleared)
      else m.set_body (m.body mail) cleared

  -- What is returned for the decrypted bytes, and the part that is left.
  pub decrypted_part : m.Part → Bytes → DecryptionResult × m.Part
  unfolding take_over
  decrypted_part part bytes =
      if is_empty bytes
      then (record { engine = "librnp.so"; status = unknown_crypt_error }, part)
      else (
        record { engine = "librnp.so"; status = decrypted },
        take_over (m.from_rfc2822 bytes) part,
      )

module _ (H : Host) (m : Mail) where
  pub decrypt_body : m.Part → H.State → (DecryptionResult × m.Part) × H.State
  decrypt_body part s =
      let w = construct H gpg_compat s in
      let (r, w') = Decrypt.decrypt (m.decoded (m.body (m.part_at 1 part))) none w in
      (decrypted_part m part r.0, destruct w')

  unfoldable pub decrypt_part : m.Part → H.State → (DecryptionResult × m.Part) × H.State
  unfolding can_decrypt decrypt_body
  decrypt_part part s =
      if can_decrypt m part
      then (if m.content_available (m.part_at 1 part)
          then decrypt_body part s
          else ((m.new_decryption, part), s))
      else ((m.decryption_of unsupported_protocol, part), s)

  -- QMailCryptoRNP::decrypt, with the part that it leaves; a null pointer is `none`.
  unfoldable pub decrypt : Option m.Part → H.State → (DecryptionResult × Option m.Part) × H.State
  unfolding decrypt_part
  decrypt none s = ((m.new_decryption, none), s)
  decrypt (some part) s = let (r, s') = decrypt_part part s in ((r.0, some r.1), s')
