-- ===== src/Rnp/Ring/Opened.antt =====
-- rnp/rnp.cpp: what `Rnp::publicKeyring` and `Rnp::secretKeyring` leave.
use sailfish_crypto_plugins.Common.{
  ℕ, ◌≡◌, ◌⊎◌, refl, Option, none, some, false, Option-cases, inl, inr, arith,
}
use sailfish_crypto_plugins.Host.{Host}
use sailfish_crypto_plugins.Machine.{World, Keyring, Level, public, secret, Rnp}
use sailfish_crypto_plugins.Rnp.Ring.{public_keyring, keep_public, secret_keyring, keep_secret}
use sailfish_crypto_plugins.Rnp.Ring.Laws.{loaded, open_keyring_lem}

-- A ring as its first use leaves it.
abbrev pub fresh_keyring : (H : Host) → Rnp → Level → H.State → Keyring
fresh_keyring H r level s = record {
  valid = (loaded H r level s).0;
  modified = false;
  level = level;
}

abbrev pub public_from : (H : Host) → Option Keyring → Rnp → H.State → Rnp × H.State
public_from H (some k) r s = (r, s)
public_from H none r s =
    (record r { public_keyring = some (fresh_keyring H r public s) }, (loaded H r public s).1)

abbrev pub secret_from : (H : Host) → Option Keyring → Rnp → H.State → Rnp × H.State
secret_from H (some k) r s = (r, s)
secret_from H none r s =
    (record r { secret_keyring = some (fresh_keyring H r secret s) }, (loaded H r secret s).1)

-- What the use of a ring leaves.
abbrev pub public_opened : (H : Host) → Rnp → H.State → Rnp × H.State
public_opened H r s = public_from H r.public_keyring r s

abbrev pub secret_opened : (H : Host) → Rnp → H.State → Rnp × H.State
secret_opened H r s = secret_from H r.secret_keyring r s

-- The plugin is as it was, or as the use of the public ring leaves it.
abbrev pub MayOpenPublic : (H : Host) → Rnp → Rnp → Type 0
MayOpenPublic H r r' = (r' ≡ r) ⊎ ((s : H.State) × (r' ≡ (public_opened H r s).0))

-- The plugin is as it was, or as the use of the secret ring leaves it.
abbrev pub MayOpenSecret : (H : Host) → Rnp → Rnp → Type 0
MayOpenSecret H r r' = (r' ≡ r) ⊎ ((s : H.State) × (r' ≡ (secret_opened H r s).0))

module _ {H : Host} where
  keep_public_lem :
      (p : Option Keyring) (w : World H)
      → let (r, s) = public_from H p w.rnp w.ffi in
        (n : ℕ) × ((keep_public p w).1 ≡ record w { rnp = r; ffi = s; next = n })
  unfolding keep_public
  keep_public_lem (some k) w = (w.next, refl)
  keep_public_lem none w = let (n, e) = open_keyring_lem public w in (n, rw e)

  pub public_keyring_lem :
      (w : World H)
      → let (r, s) = public_opened H w.rnp w.ffi in
        (n : ℕ) × ((public_keyring w).1 ≡ record w { rnp = r; ffi = s; next = n })
  unfolding public_keyring
  public_keyring_lem w = keep_public_lem w.rnp.public_keyring w

  keep_secret_lem :
      (p : Option Keyring) (w : World H)
      → let (r, s) = secret_from H p w.rnp w.ffi in
        (n : ℕ) × ((keep_secret p w).1 ≡ record w { rnp = r; ffi = s; next = n })
  unfolding keep_secret
  keep_secret_lem (some k) w = (w.next, refl)
  keep_secret_lem none w = let (n, e) = open_keyring_lem secret w in (n, rw e)

  pub secret_keyring_lem :
      (w : World H)
      → let (r, s) = secret_opened H w.rnp w.ffi in
        (n : ℕ) × ((secret_keyring w).1 ≡ record w { rnp = r; ffi = s; next = n })
  unfolding secret_keyring
  secret_keyring_lem w = keep_secret_lem w.rnp.secret_keyring w

  pub secret_keyring-stored :
      (w : World H) → (secret_keyring w).1.rnp.secret_keyring ≡ some (secret_keyring w).0
  unfolding secret_keyring keep_secret
  secret_keyring-stored w = elim (Option-cases w.rnp.secret_keyring) [
    | inl e ↦ ground arith
    | inr (k, e) ↦ ground arith
  ]
