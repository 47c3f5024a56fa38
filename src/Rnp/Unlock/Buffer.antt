-- ===== src/Rnp/Unlock/Buffer.antt =====
-- rnp/rnp.cpp, `unlock`: what librnp finds in its buffer.
use sailfish_crypto_plugins.Common.{
  ℕ, suc, ◌≡◌, ◌≢◌, ◌≤◌, ◌<◌, ◌⊎◌, refl, ap, ◌∙◌, Bool, true, false, String, Option, some, [], ◌∷◌,
  ◌++◌, ◌==◌, append_assoc, length, length-append, drop, length-drop, ltb, All, if◌then◌else◌, inl,
  inr, arith,
}
use sailfish_crypto_plugins.Host.{Host, Bytes}
use sailfish_crypto_plugins.Machine.{World}
use sailfish_crypto_plugins.Rnp.Key.Fingerprints.{text_of, take_text_lem}
use sailfish_crypto_plugins.Rnp.Unlock.{
  Outcome, succeeded, failed, instruction, unlock, overwrite, unlock_key,
}

-- The text of a C string.
pub c_string : Bytes → Bytes
c_string [] = []
c_string (b ∷ bytes) = let rest = c_string bytes in if b == 0 then [] else b ∷ rest

-- What librnp is told and its buffer, for the outcome of the dialogue.
pub data Answered (buf : Bytes) (ok : Bool) (buf' : Bytes) : Outcome → Type 0 where
  not_given : ok ≡ false → buf' ≡ buf → Answered buf ok buf' failed
  too_long :
      {passphrase : Bytes}
      → length buf ≤ length passphrase
      → ok ≡ true
      → buf' ≡ buf
      → Answered buf ok buf' (succeeded passphrase)
  given :
      {passphrase : Bytes}
      → length passphrase < length buf
      → ok ≡ true
      → buf' ≡ passphrase ++ 0 ∷ drop (suc (length passphrase)) buf
      → length buf' ≡ length buf
      → Answered buf ok buf' (succeeded passphrase)

ltb_cases : (a b : ℕ) → ((a < b) × (ltb a b ≡ true)) ⊎ ((b ≤ a) × (ltb a b ≡ false))
ltb_cases a b = ground arith

length-overwrite :
    (passphrase buf : Bytes)
    → length passphrase < length buf
    → length (overwrite (some (passphrase ++ 0 ∷ [])) buf) ≡ length buf
length-overwrite passphrase buf h = omega (
  arith,
  length-append passphrase (0 ∷ []),
  length-append (passphrase ++ 0 ∷ []) (drop (length (passphrase ++ 0 ∷ [])) buf),
  length-drop (length (passphrase ++ 0 ∷ [])) buf,
)

overwritten :
    (passphrase buf : Bytes)
    → overwrite (some (passphrase ++ 0 ∷ [])) buf
      ≡ passphrase ++ 0 ∷ drop (suc (length passphrase)) buf
overwritten passphrase buf =
    append_assoc passphrase (0 ∷ []) _
    ∙ ap (λ n. passphrase ++ 0 ∷ drop n buf) {y = suc (length passphrase)}
        (omega (arith, length-append passphrase (0 ∷ [])))

==_nonzero : (b : ℕ) → b ≢ 0 → (b == 0) ≡ false
==_nonzero b h = ground arith

-- A C string ends at its NUL.
c_string-append : (text rest : Bytes) → All (λ b. b ≢ 0) text → c_string (text ++ 0 ∷ rest) ≡ text
unfolding c_string
c_string-append [] rest h = refl
c_string-append (b ∷ text) rest (nonzero, h) =
    rw (==_nonzero b nonzero) (ap (λ xs. b ∷ xs) (c_string-append text rest h))

abbrev typed_in : Outcome → Bytes
typed_in (succeeded passphrase) = passphrase
typed_in failed = []

given_c_string :
    (buf buf' passphrase : Bytes) (ok : Bool) (outcome : Outcome)
    → outcome ≡ succeeded passphrase
    → length passphrase < length buf
    → All (λ b. b ≢ 0) passphrase
    → Answered buf ok buf' outcome
    → c_string buf' ≡ passphrase
given_c_string buf buf' passphrase ok failed e fits h a = cc
given_c_string buf buf' passphrase ok (succeeded p) e fits h (too_long long _ _) =
    absurd (omega (arith, ap length (ap typed_in e)))
given_c_string buf buf' passphrase ok (succeeded p) e fits h (given _ _ same _) =
    ap c_string same ∙ (rw (ap typed_in e) (c_string-append passphrase _ h))

unlock-Answered :
    (outcome : Outcome) (buf : Bytes)
    → let (ok, written) = unlock outcome (length buf) in
      Answered buf ok (overwrite written buf) outcome
unfolding unlock
unlock-Answered failed buf = not_given refl refl
unlock-Answered (succeeded passphrase) buf = elim (ltb_cases (length passphrase) (length buf)) [
  | inl (fits, e) ↦
      rw e (given fits refl (overwritten passphrase buf) (length-overwrite passphrase buf fits))
  | inr (long, e) ↦ rw e (too_long long refl refl)
]

module _ {H : Host} where
  -- `unlock` asks for the passphrase of the key that librnp names, for what librnp is about to do, and
  -- gives back the text of the fingerprint. It answers whether the dialogue succeeded, also where the
  -- passphrase and its NUL do not fit; they are written to the start of the buffer if they fit, and
  -- nothing else is.
  pub unlock_key_lem :
      (ask : Option String → Outcome) (key : Option H.KeyRef) (context : String) (buf : Bytes)
      (w : World H)
      → let ((ok, buf'), w') = unlock_key ask key context buf w in
        let fp = text_of H (H.key_get_fprint key w.ffi) in
        (w' ≡ w) × Answered buf ok buf' (ask (instruction H context fp))
  unfolding unlock_key
  unlock_key_lem ask key context buf w = rw (take_text_lem (H.key_get_fprint key w.ffi) w) (
    refl,
    unlock-Answered (ask (instruction H context (text_of H (H.key_get_fprint key w.ffi)))) buf,
  )

  -- A passphrase that holds no NUL and is shorter than the buffer is what librnp reads from the
  -- buffer as a C string.
  pub unlock_key-c_string :
      (ask : Option String → Outcome) (key : Option H.KeyRef) (context : String) (buf : Bytes)
      (w : World H) (passphrase : Bytes)
      → ask (instruction H context (text_of H (H.key_get_fprint key w.ffi))) ≡ succeeded passphrase
      → length passphrase < length buf
      → All (λ b. b ≢ 0) passphrase
      → c_string (unlock_key ask key context buf w).0.1 ≡ passphrase
  unlock_key-c_string ask key context buf w passphrase e fits h =
      given_c_string buf _ passphrase _ _ e fits h (unlock_key_lem ask key context buf w).1
