-- ===== src/Tests/ToyMail.antt =====
-- Parts of a mail as trees, which have the laws that the plugin relies on.
use sailfish_crypto_plugins.Common.{
  ℕ, zero, suc, ◌<◌, ◌≡◌, ◌≢◌, refl, ap, String, Bool, true, false, [], ◌&&◌, ◌||◌, str_eq, arith,
}
use sailfish_crypto_plugins.Host.{Bytes}
use sailfish_crypto_plugins.Qmf.Mail.{
  Mail, MultipartType, multipart_none, multipart_other, crypt_other,
}
use sailfish_crypto_plugins.Qmf.Mail.Laws.{MailLaws}
use sailfish_crypto_plugins.Qmf.Summary.{unknown_error}

-- A body: its bytes and its content type.
pub record ToyBody : Type 0 where
  pub bytes : Bytes
  pub content_type : String

-- A part without the parts that it holds.
pub record ToyHead : Type 0 where
  pub kind : MultipartType
  pub here : Bool
  pub raw : Bytes
  pub body : ToyBody

-- The parts that a part holds: the first one's head and parts, and the others.
pub data ToyParts : Type 0 where
  no_parts : ToyParts
  first_part : ToyHead → ToyParts → ToyParts → ToyParts

pub record ToyPart : Type 0 where
  pub head : ToyHead
  pub children : ToyParts

abbrev pub toy_body : Bytes → String → ToyBody
toy_body bytes t = record { bytes = bytes; content_type = t }

abbrev pub toy_multipart : MultipartType → String → Bytes → ToyParts → ToyPart
toy_multipart t content_type bytes xs = record {
  head = record { kind = t; here = true; raw = bytes; body = toy_body bytes content_type };
  children = xs;
}

abbrev pub toy_leaf : Bytes → ToyPart
toy_leaf bytes = toy_multipart multipart_none "text/plain" bytes no_parts

abbrev pub count_of : ToyParts → ℕ
count_of no_parts = 0
count_of (first_part h c xs) = suc (count_of xs)

abbrev nth : ℕ → ToyParts → ToyPart
nth i no_parts = toy_leaf []
nth zero (first_part h c xs) = record { head = h; children = c }
nth (suc i) (first_part h c xs) = nth i xs

abbrev behind : ToyPart → ToyParts → ToyParts
behind y no_parts = first_part y.head y.children no_parts
behind y (first_part h c xs) = first_part h c (behind y xs)

abbrev replaced : ℕ → ToyPart → ToyParts → ToyParts
replaced i y no_parts = no_parts
replaced zero y (first_part h c xs) = first_part y.head y.children xs
replaced (suc i) y (first_part h c xs) = first_part h c (replaced i y xs)

-- A part whose type the plugin takes for encrypted, with its control part and its data.
abbrev pub toy_encrypted : Bytes → ToyPart
toy_encrypted bytes = toy_multipart (multipart_other 0) "multipart/encrypted" [] (
    behind (toy_leaf bytes)
      (behind (toy_multipart multipart_none "application/pgp-encrypted" [] no_parts) no_parts))

abbrev is_other : MultipartType → Bool
is_other (multipart_other n) = true
is_other _ = false

abbrev type_matches : String → String → ToyPart → Bool
type_matches t u p =
    (str_eq u "pgp-signature" && str_eq p.head.body.content_type "application/pgp-signature")
    || (str_eq u "pgp-encrypted" && str_eq p.head.body.content_type "application/pgp-encrypted")

abbrev pub toy_mail : Mail
toy_mail = record {
  Part = ToyPart;
  Body = ToyBody;
  new_part = toy_leaf [];
  multipart_type = λ p. p.head.kind;
  parameters = λ _. [];
  matches = type_matches;
  part_count = λ p. count_of p.children;
  part_at = λ i p. nth i p.children;
  content_available = λ p. p.head.here;
  is_encrypted = λ p. is_other p.head.kind;
  undecoded_data = λ p. p.head.raw;
  has_body = λ _. true;
  body = λ p. p.head.body;
  decoded = λ b. b.bytes;
  text = λ b. b.content_type;
  body_of_data = toy_body;
  set_multipart_type = λ t _ p. record p { head = record p.head { kind = t } };
  set_body = λ b p. record p { head = record p.head { body = b; here = true } };
  set_undecoded_data = λ r p. record p { head = record p.head { raw = r; here = true } };
  set_content_description = λ _ p. p;
  append_part = λ x p. record p { children = behind x p.children };
  clear_parts = λ p. record p { children = no_parts };
  replace_part = λ i x p. record p { children = replaced i x p.children };
  to_rfc2822 = λ p. p.head.body.bytes;
  from_rfc2822 = toy_leaf;
  starts_with = λ _ _. true;
  new_verification = record { engine = ""; summary = unknown_error; key_results = [] };
  verification_of = λ r. record { engine = ""; summary = r; key_results = [] };
  new_decryption = record { engine = ""; status = crypt_other 0 };
  decryption_of = λ r. record { engine = ""; status = r };
}

count-behind : (x : ToyPart) (xs : ToyParts) → count_of (behind x xs) ≡ suc (count_of xs)
count-behind x no_parts = refl
count-behind x (first_part h c xs) = ap suc (count-behind x xs)

nth-behind : (x : ToyPart) (xs : ToyParts) → nth (count_of xs) (behind x xs) ≡ x
nth-behind x no_parts = refl
nth-behind x (first_part h c xs) = nth-behind x xs

nth_below : (i : ℕ) (x : ToyPart) (xs : ToyParts) → i < count_of xs → nth i (behind x xs) ≡ nth i xs
nth_below i x no_parts h = absurd (omega arith)
nth_below zero x (first_part d c xs) h = refl
nth_below (suc i) x (first_part d c xs) h = nth_below i x xs (omega arith)

count-replaced : (i : ℕ) (x : ToyPart) (xs : ToyParts) → count_of (replaced i x xs) ≡ count_of xs
count-replaced i x no_parts = refl
count-replaced zero x (first_part h c xs) = refl
count-replaced (suc i) x (first_part h c xs) = ap suc (count-replaced i x xs)

nth-replaced : (i : ℕ) (x : ToyPart) (xs : ToyParts) → i < count_of xs → nth i (replaced i x xs) ≡ x
nth-replaced i x no_parts h = absurd (omega arith)
nth-replaced zero x (first_part d c xs) h = refl
nth-replaced (suc i) x (first_part d c xs) h = nth-replaced i x xs (omega arith)

nth_other : (i j : ℕ) (x : ToyPart) (xs : ToyParts) → i ≢ j → nth i (replaced j x xs) ≡ nth i xs
nth_other i j x no_parts h = refl
nth_other zero zero x (first_part d c xs) h = absurd (h refl)
nth_other (suc i) zero x (first_part d c xs) h = refl
nth_other zero (suc j) x (first_part d c xs) h = refl
nth_other (suc i) (suc j) x (first_part d c xs) h = nth_other i j x xs (λ e. h (ap suc e))

pub toy_laws : MailLaws toy_mail
toy_laws = record {
  new_count = refl;
  count_clear = λ p. refl;
  count_append = λ x p. count-behind x p.children;
  at_append = λ x p. nth-behind x p.children;
  at_append_below = λ i x p h. nth_below i x p.children h;
  type_append = λ x p. refl;
  type_set = λ t' qs p. refl;
  count_set = λ t' qs p. refl;
  at_set = λ i t' qs p. refl;
  type_replace = λ i x p. refl;
  count_replace = λ i x p. count-replaced i x p.children;
  at_replace = λ i x p h. nth-replaced i x p.children h;
  at_replace_other = λ i j x p h. nth_other i j x p.children h;
  body_set = λ b' p. refl;
  decoded_data = λ bytes. refl;
  matches_signature = λ bytes p. refl;
  matches_described = λ t u d p. refl;
  body_described = λ d p. refl;
  undecoded_set = λ bytes p. refl;
}
