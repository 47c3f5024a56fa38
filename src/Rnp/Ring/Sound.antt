-- ===== src/Rnp/Ring/Sound.antt =====
-- rnp/rnp_p.h: what holds of an `Rnp` object of the plugin, and of what is open, between two calls.
use sailfish_crypto_plugins.Common.{
  ℕ, ◌≡◌, refl, ap, ◌∙◌, if◌then◌else◌, arith, ◌⊎◌, inl, inr, Bool, true, false, Option, none, some,
  List, [], ◌++◌, all, all-append,
}
use sailfish_crypto_plugins.Host.{Host}
use sailfish_crypto_plugins.Machine.{World, Rnp, Keyring, public, secret, Resource, gpg_compat}
use sailfish_crypto_plugins.Machine.Ledger.{is_of_key, Reaches}
use sailfish_crypto_plugins.Rnp.Ring.{new_rnp, construct, public_keyring, secret_keyring}
use sailfish_crypto_plugins.Rnp.Ring.{key_path}
use sailfish_crypto_plugins.Rnp.Ring.Laws.{closed, save_to, unloaded}
use sailfish_crypto_plugins.Rnp.Ring.Opened.{
  public_from, secret_from, public_opened, secret_opened, MayOpenPublic, MayOpenSecret,
  public_keyring_lem, secret_keyring_lem,
}

-- The public ring is not open, or it is one of public keys that is modified only if a removal `may`
-- have been asked for.
abbrev pub IsPublicRing : Bool → Option Keyring → Type 0
IsPublicRing may none = Unit
IsPublicRing may (some k) = (k.level ≡ public) × ((k.modified ≡ false) ⊎ (may ≡ true))

-- The secret ring is not open, or it is one of secret keys that is not modified.
abbrev pub IsSecretRing : Option Keyring → Type 0
IsSecretRing none = Unit
IsSecretRing (some k) = (k.level ≡ secret) × (k.modified ≡ false)

-- The rings of an `Rnp` object, whose other members are as its constructor made them.
pub record HasRings (H : Host) (may : Bool) (r : Rnp) : Type 0 where
  pub members : (record r { public_keyring = none; secret_keyring = none }) ≡ new_rnp H gpg_compat
  pub public_ring : IsPublicRing may r.public_keyring
  pub secret_ring : IsSecretRing r.secret_keyring

-- A ring that is not saved.
abbrev pub only_unloaded : (H : Host) → Option Keyring → H.State → H.State
only_unloaded H none s = s
only_unloaded H (some k) s = unloaded H k s

closed_unmodified :
    (H : Host) (r : Rnp) (k : Keyring) (s : H.State)
    → k.modified ≡ false
    → closed H r (some k) s ≡ unloaded H k s
closed_unmodified H r k s e =
    ap
      (λ b.
        unloaded H k
          (if b then save_to H r k (H.output_to_path (H.to_utf8 (key_path r k.level)) s) else s))
      e

pub closed_secret :
    (H : Host) (r : Rnp) (p : Option Keyring) (s : H.State)
    → IsSecretRing p
    → closed H r p s ≡ only_unloaded H p s
closed_secret H r none s e = refl
closed_secret H r (some k) s (level, unmodified) = closed_unmodified H r k s unmodified

pub closed_public :
    (H : Host) (r : Rnp) (may : Bool) (p : Option Keyring) (s : H.State)
    → IsPublicRing may p
    → (may ≡ true) ⊎ (closed H r p s ≡ only_unloaded H p s)
closed_public H r may none s e = inr refl
closed_public H r may (some k) s (level, inl unmodified) =
    inr (closed_unmodified H r k s unmodified)
closed_public H r may (some k) s (level, inr removed) = inl removed

-- Where neither ring is modified, the end of an `Rnp` object saves none.
pub closed-HasRings :
    (H : Host) (r : Rnp) (s : H.State)
    → HasRings H false r
    → closed H r r.secret_keyring (closed H r r.public_keyring s)
      ≡ only_unloaded H r.secret_keyring (only_unloaded H r.public_keyring s)
closed-HasRings H r s h =
    closed_secret H r r.secret_keyring (closed H r r.public_keyring s) h.secret_ring
    ∙ ap (only_unloaded H r.secret_keyring)
        (elim (closed_public H r false r.public_keyring s h.public_ring) [
          | inl e ↦ absurd (ground arith)
          | inr e ↦ e
        ])

-- The rings are in order, nothing was given back that was not open, and of what is open all is a
-- key's or a user id's handle.
pub record IsSound {H : Host} (may : Bool) (w : World H) : Type 0 where
  pub rings : HasRings H may w.rnp
  pub no_bad_frees : w.bad_frees ≡ 0
  pub only_keys : all is_of_key w.live ≡ true

public_from-HasRings :
    {H : Host} {may : Bool} (p : Option Keyring) (r : Rnp) (s : H.State)
    → HasRings H may r
    → HasRings H may (public_from H p r s).0
public_from-HasRings (some k) r s h = h
public_from-HasRings none r s h = record {
  members = h.members;
  public_ring = (refl, inl refl);
  secret_ring = h.secret_ring;
}

secret_from-HasRings :
    {H : Host} {may : Bool} (p : Option Keyring) (r : Rnp) (s : H.State)
    → HasRings H may r
    → HasRings H may (secret_from H p r s).0
secret_from-HasRings (some k) r s h = h
secret_from-HasRings none r s h = record {
  members = h.members;
  public_ring = h.public_ring;
  secret_ring = (refl, refl);
}

module _ {H : Host} {may : Bool} where
  pub public_opened-HasRings :
      (r : Rnp) (s : H.State) → HasRings H may r → HasRings H may (public_opened H r s).0
  public_opened-HasRings r s h = public_from-HasRings r.public_keyring r s h

  pub secret_opened-HasRings :
      (r : Rnp) (s : H.State) → HasRings H may r → HasRings H may (secret_opened H r s).0
  secret_opened-HasRings r s h = secret_from-HasRings r.secret_keyring r s h

  pub MayOpenPublic-HasRings :
      (r r' : Rnp) → MayOpenPublic H r r' → HasRings H may r → HasRings H may r'
  MayOpenPublic-HasRings r r' (inl e) h = rw e h
  MayOpenPublic-HasRings r r' (inr (s, e)) h = rw e (public_opened-HasRings r s h)

  pub MayOpenSecret-HasRings :
      (r r' : Rnp) → MayOpenSecret H r r' → HasRings H may r → HasRings H may r'
  MayOpenSecret-HasRings r r' (inl e) h = rw e h
  MayOpenSecret-HasRings r r' (inr (s, e)) h = rw e (secret_opened-HasRings r s h)

  -- Other rings in order, and more handles of keys, keep all of it.
  pub more-IsSound :
      (r : Rnp) (s : H.State) (n : ℕ) (left : List Resource) (w : World H)
      → HasRings H may r
      → all is_of_key left ≡ true
      → IsSound may w
      → IsSound may (record w { rnp = r; ffi = s; next = n; live = left ++ w.live })
  more-IsSound r s n left w h e sound = record {
    rings = h;
    no_bad_frees = sound.no_bad_frees;
    only_keys = all-append is_of_key left w.live e sound.only_keys;
  }

  pub settled-IsSound :
      {A : Type 0} (v : A) (r : Rnp) (s : H.State) (n : ℕ) (left : List Resource) (w : World H)
      {out : A × World H}
      → out ≡ (v, record w { rnp = r; ffi = s; next = n; live = left ++ w.live })
      → HasRings H may r
      → all is_of_key left ≡ true
      → IsSound may w
      → IsSound may out.1
  settled-IsSound v r s n left w e h f sound = rw e (more-IsSound r s n left w h f sound)

  pub Reaches-IsSound :
      {A : Type 0} {v : A × Rnp × H.State} (w : World H) {out : A × World H}
      → Reaches w v out
      → HasRings H may v.1
      → IsSound may w
      → IsSound may out.1
  Reaches-IsSound {v = v} w l h sound =
      settled-IsSound v.0 v.1 v.2 l.next l.left w l.run h l.of_keys sound

  pub public_keyring-IsSound : (w : World H) → IsSound may w → IsSound may (public_keyring w).1
  public_keyring-IsSound w sound =
      let (n, e) = public_keyring_lem w in
      let (r, s) = public_opened H w.rnp w.ffi in
      rw e (more-IsSound r s n [] w (public_opened-HasRings w.rnp w.ffi sound.rings) refl sound)

  pub secret_keyring-IsSound : (w : World H) → IsSound may w → IsSound may (secret_keyring w).1
  secret_keyring-IsSound w sound =
      let (n, e) = secret_keyring_lem w in
      let (r, s) = secret_opened H w.rnp w.ffi in
      rw e (more-IsSound r s n [] w (secret_opened-HasRings w.rnp w.ffi sound.rings) refl sound)

-- A new `Rnp` object is sound.
pub construct-IsSound :
    (H : Host) (s : H.State) {may : Bool} → IsSound may (construct H gpg_compat s)
unfolding construct new_rnp
construct-IsSound H s = record {
  rings = record { members = refl; public_ring = tt; secret_ring = tt };
  no_bad_frees = refl;
  only_keys = refl;
}
