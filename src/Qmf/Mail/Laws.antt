-- ===== src/Qmf/Mail/Laws.antt =====
-- What the plugin relies on of the Qt Messaging Framework's parts: a container is a list of parts with
-- a type, and a part keeps the body that it was given.
use sailfish_crypto_plugins.Common.{ℕ, suc, ◌≡◌, ◌≢◌, ◌⊎◌, ◌<◌, true, String, List}
use sailfish_crypto_plugins.Host.{Bytes}
use sailfish_crypto_plugins.Qmf.Mail.{Mail, MultipartType, multipart_none}

-- A part that is not multipart holds no parts.
abbrev pub IsWhole : (m : Mail) → m.Part → Type 0
IsWhole m p = (m.multipart_type p ≢ multipart_none) ⊎ (m.part_count p ≡ 0)

pub record MailLaws (m : Mail) : Type 0 where
  pub new_count : m.part_count m.new_part ≡ 0
  pub count_clear : (p : m.Part) → m.part_count (m.clear_parts p) ≡ 0
  pub count_append : (x p : m.Part) → m.part_count (m.append_part x p) ≡ suc (m.part_count p)
  pub at_append : (x p : m.Part) → m.part_at (m.part_count p) (m.append_part x p) ≡ x
  pub at_append_below :
      (i : ℕ) (x p : m.Part) → i < m.part_count p → m.part_at i (m.append_part x p) ≡ m.part_at i p
  pub type_append : (x p : m.Part) → m.multipart_type (m.append_part x p) ≡ m.multipart_type p
  -- The type is set beside the parts.
  pub type_set :
      (t : MultipartType) (ps : List (String × String)) (p : m.Part)
      → m.multipart_type (m.set_multipart_type t ps p) ≡ t
  pub count_set :
      (t : MultipartType) (ps : List (String × String)) (p : m.Part)
      → m.part_count (m.set_multipart_type t ps p) ≡ m.part_count p
  pub at_set :
      (i : ℕ) (t : MultipartType) (ps : List (String × String)) (p : m.Part)
      → m.part_at i (m.set_multipart_type t ps p) ≡ m.part_at i p
  -- So is a part that is replaced.
  pub type_replace :
      (i : ℕ) (x p : m.Part) → m.multipart_type (m.replace_part i x p) ≡ m.multipart_type p
  pub count_replace : (i : ℕ) (x p : m.Part) → m.part_count (m.replace_part i x p) ≡ m.part_count p
  pub at_replace :
      (i : ℕ) (x p : m.Part) → i < m.part_count p → m.part_at i (m.replace_part i x p) ≡ x
  pub at_replace_other :
      (i j : ℕ) (x p : m.Part) → i ≢ j → m.part_at i (m.replace_part j x p) ≡ m.part_at i p
  -- A body brings its content type.
  pub body_set : (b : m.Body) (p : m.Part) → m.body (m.set_body b p) ≡ b
  -- The data of a signature is not text, and is kept as it is.
  pub decoded_data :
      (bytes : Bytes) → m.decoded (m.body_of_data bytes "application/pgp-signature") ≡ bytes
  pub matches_signature :
      (bytes : Bytes) (p : m.Part)
      → m.matches "application" "pgp-signature"
          (m.set_body (m.body_of_data bytes "application/pgp-signature") p)
        ≡ true
  -- A description changes nothing but itself.
  pub matches_described :
      (t u d : String) (p : m.Part)
      → m.matches t u (m.set_content_description d p) ≡ m.matches t u p
  pub body_described : (d : String) (p : m.Part) → m.body (m.set_content_description d p) ≡ m.body p
  -- What is set as a part's undecoded data is there.
  pub undecoded_set :
      (bytes : Bytes) (p : m.Part) → m.undecoded_data (m.set_undecoded_data bytes p) ≡ bytes
