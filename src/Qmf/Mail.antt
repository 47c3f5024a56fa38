-- ===== src/Qmf/Mail.antt =====
-- What qmf/rnp/plugin.cpp takes from the Qt Messaging Framework: the parts of a mail. A
-- QMailMessagePartContainer and a QMailMessagePart are one type here; a method that changes an object
-- returns the object that it leaves.
pub mod Laws
pub mod Parts
use sailfish_crypto_plugins.Common.{ℕ, String, Bool, List}
use sailfish_crypto_plugins.Host.{Bytes}
use sailfish_crypto_plugins.Qmf.Summary.{SignatureResult, VerificationResult}

-- QMailMessagePartContainer::MultipartType, as far as the source names it.
pub data MultipartType : Type 0 where
  multipart_none multipart_signed : MultipartType
  multipart_other : ℕ → MultipartType

-- QMailCrypto::CryptResult, as far as the source names it.
pub data CryptResult : Type 0 where
  decrypted unsupported_protocol unknown_crypt_error : CryptResult
  crypt_other : ℕ → CryptResult

-- QMailCrypto::DecryptionResult
pub record DecryptionResult : Type 0 where
  pub engine : String
  pub status : CryptResult

pub record Mail : Type 1 where
  pub Part : Type 0
  pub Body : Type 0
  -- QMailMessagePart::QMailMessagePart()
  pub new_part : Part
  pub multipart_type : Part → MultipartType
  -- contentType().parameters() and contentType().matches(type, subtype)
  pub parameters : Part → List (String × String)
  pub matches : String → String → Part → Bool
  pub part_count : Part → ℕ
  pub part_at : ℕ → Part → Part
  pub content_available : Part → Bool
  pub is_encrypted : Part → Bool
  pub undecoded_data : Part → Bytes
  pub has_body : Part → Bool
  pub body : Part → Body
  -- QMailMessageBody: data(Decoded), data() as a text, fromData(bytes, content type, SevenBit)
  pub decoded : Body → Bytes
  pub text : Body → String
  pub body_of_data : Bytes → String → Body
  pub set_multipart_type : MultipartType → List (String × String) → Part → Part
  pub set_body : Body → Part → Part
  pub set_undecoded_data : Bytes → Part → Part
  pub set_content_description : String → Part → Part
  pub append_part : Part → Part → Part
  pub clear_parts : Part → Part
  -- An assignment to the part that partAt(i) refers to.
  pub replace_part : ℕ → Part → Part → Part
  pub to_rfc2822 : Part → Bytes
  -- QMailMessage::fromRfc2822
  pub from_rfc2822 : Bytes → Part
  -- QString::startsWith
  pub starts_with : String → String → Bool
  -- The constructors of the results that the source calls.
  pub new_verification : VerificationResult
  pub verification_of : SignatureResult → VerificationResult
  pub new_decryption : DecryptionResult
  pub decryption_of : CryptResult → DecryptionResult
