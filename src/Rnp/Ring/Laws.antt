-- ===== src/Rnp/Ring/Laws.antt =====
-- rnp/rnp.cpp: a key ring is opened once, and what its constructor and destructor leave.
use sailfish_crypto_plugins.Common.{
  ℕ, suc, ◌≡◌, refl, ap, ◌∙◌, Bool, true, false, Option, none, some, if◌then◌else◌, arith,
  Option-cases, inl, inr,
}
use sailfish_crypto_plugins.Host.{Host, Ret, ok, err}
use sailfish_crypto_plugins.Machine.{
  World, create, pure, ◌>>=◌, handle, input, output, given, Keyring, Level, Rnp,
}
use sailfish_crypto_plugins.Machine.Ledger.{release_head}
use sailfish_crypto_plugins.Rnp.Ring.{
  open_keyring, load_keyring, public_keyring, keep_public, secret_keyring, keep_secret,
  close_keyring, save_if_modified, save_keyring, unload_if_valid, destruct, half, key_path,
  keystore, succeeded,
}

-- The constructor's work on librnp's state, and whether it loaded the keys.
abbrev load_from : (H : Host) → Rnp → Level → Ret H.Input × H.State → Bool × H.State
load_from H r level (err c, s) = (false, s)
load_from H r level (ok i, s) =
    let (res, s') = H.load_keys (keystore r.format) i (half level) s in (succeeded res, s')

abbrev pub loaded : (H : Host) → Rnp → Level → H.State → Bool × H.State
loaded H r level s = load_from H r level (H.input_from_path (H.to_utf8 (key_path r level)) s)

-- The destructor's.
abbrev pub save_to : (H : Host) → Rnp → Keyring → Ret H.Output × H.State → H.State
save_to H r k (err c, s) = s
save_to H r k (ok o, s) = (H.save_keys (keystore r.format) o (half k.level) s).1

abbrev pub saved : (H : Host) → Rnp → Keyring → H.State → H.State
saved H r k s =
    if k.modified then save_to H r k (H.output_to_path (H.to_utf8 (key_path r k.level)) s) else s

abbrev pub unloaded : (H : Host) → Keyring → H.State → H.State
unloaded H k s = if k.valid then (H.unload_keys (half k.level) s).1 else s

-- The destructor of a ring that may not have been opened.
abbrev pub closed : (H : Host) → Rnp → Option Keyring → H.State → H.State
closed H r none s = s
closed H r (some k) s = unloaded H k (saved H r k s)

module _ {H : Host} where
  load_keyring_lem :
      (r : Rnp) (level : Level) (q : Ret H.Input × H.State) (w : World H)
      → let (g, w') = given input q.0 (record w { ffi = q.1 }) in
        (n : ℕ) × (load_keyring r level g w' ≡ (
          record { valid = (load_from H r level q).0; modified = false; level = level },
          record w { ffi = (load_from H r level q).1; next = n },
        ))
  unfolding load_keyring
  load_keyring_lem r level (err c, s) w = (w.next, refl)
  load_keyring_lem r level (ok i, s) w = (
    suc w.next,
    rw (
        release_head (handle input w.next)
          (record w { ffi = (load_from H r level (ok i, s)).1; next = suc w.next })),
  )

  -- A key ring that is opened is valid exactly if librnp opened its file and loaded its half of the
  -- keys; it is not modified, and the file's input is freed once.
  pub open_keyring_lem :
      (level : Level) (w : World H)
      → (n : ℕ) × (open_keyring level w ≡ (
        record { valid = (loaded H w.rnp level w.ffi).0; modified = false; level = level },
        record w { ffi = (loaded H w.rnp level w.ffi).1; next = n },
      ))
  unfolding open_keyring
  open_keyring_lem level w = load_keyring_lem w.rnp level _ w

  pub public_keyring_cached :
      (kr : Keyring) (w : World H) → w.rnp.public_keyring ≡ some kr → public_keyring w ≡ (kr, w)
  unfolding public_keyring
  public_keyring_cached kr w e = ap (λ p. keep_public p w) e

  pub secret_keyring_cached :
      (kr : Keyring) (w : World H) → w.rnp.secret_keyring ≡ some kr → secret_keyring w ≡ (kr, w)
  unfolding secret_keyring
  secret_keyring_cached kr w e = ap (λ p. keep_secret p w) e

  pub public_keyring-stored :
      (w : World H) → (public_keyring w).1.rnp.public_keyring ≡ some (public_keyring w).0
  unfolding public_keyring
  public_keyring-stored w = elim (Option-cases w.rnp.public_keyring) [
    | inl e ↦ ground arith
    | inr (k, e) ↦ ground arith
  ]

  -- The first call of `publicKeyring()` opens the ring, and each later one returns that ring and
  -- changes nothing: librnp is asked to load the keys once.
  pub public_keyring_once :
      (w : World H) → let (kr, w') = public_keyring w in public_keyring w' ≡ (kr, w')
  public_keyring_once w = public_keyring_cached _ _ (public_keyring-stored w)

  save_keyring_lem :
      (k : Keyring) (r : Rnp) (q : Ret H.Output × H.State) (w : World H)
      → let (g, w') = given output q.0 (record w { ffi = q.1 }) in
        (n : ℕ) × (save_keyring k r g w' ≡ (tt, record w { ffi = save_to H r k q; next = n }))
  unfolding save_keyring
  save_keyring_lem k r (err c, s) w = (w.next, refl)
  save_keyring_lem k r (ok o, s) w = (
    suc w.next,
    rw (
        release_head (handle output w.next)
          (record w { ffi = save_to H r k (ok o, s); next = suc w.next })),
  )

  saved_when :
      (b : Bool) (k : Keyring) (r : Rnp) (w : World H)
      → let q = H.output_to_path (H.to_utf8 (key_path r k.level)) in
        (n : ℕ) × ((if b then (create output q >>= save_keyring k r) else pure tt) w
          ≡ (tt, record w { ffi = if b then save_to H r k (q w.ffi) else w.ffi; next = n }))
  saved_when true k r w =
      save_keyring_lem k r (H.output_to_path (H.to_utf8 (key_path r k.level)) w.ffi) w
  saved_when false k r w = (w.next, refl)

  save_if_modified_lem :
      (k : Keyring) (r : Rnp) (w : World H)
      → (n : ℕ) × (save_if_modified k r w ≡ (tt, record w { ffi = saved H r k w.ffi; next = n }))
  unfolding save_if_modified
  save_if_modified_lem k r w = saved_when k.modified k r w

  unload_if_valid_lem :
      (k : Keyring) (w : World H)
      → unload_if_valid k w ≡ (tt, record w { ffi = unloaded H k w.ffi })
  unfolding unload_if_valid
  unload_if_valid_lem k w = ground arith

  close_keyring_lem :
      (p : Option Keyring) (w : World H)
      → (n : ℕ) × (close_keyring p w ≡ (tt, record w { ffi = closed H w.rnp p w.ffi; next = n }))
  unfolding close_keyring
  close_keyring_lem none w = (w.next, refl)
  close_keyring_lem (some k) w =
      let (n, e) = save_if_modified_lem k w.rnp w in
      (n, rw e (unload_if_valid_lem k (record w { ffi = saved H w.rnp k w.ffi; next = n })))

  -- The destructor closes the public ring, then the secret one, then librnp. A ring that was opened
  -- is saved if and only if it was modified, each to its own file and in its own half, and unloaded
  -- if and only if it is valid; a ring that was never opened is neither.
  pub destruct_lem :
      (w : World H)
      → destruct w
        ≡ H.ffi_destroy
            (closed H w.rnp w.rnp.secret_keyring (closed H w.rnp w.rnp.public_keyring w.ffi))
  unfolding destruct
  destruct_lem w =
      let (n, e) = close_keyring_lem w.rnp.public_keyring w in
      let w1 = record w { ffi = closed H w.rnp w.rnp.public_keyring w.ffi; next = n } in
      let (m, f) = close_keyring_lem w.rnp.secret_keyring w1 in
      ap (λ (p : Unit × World H). H.ffi_destroy (close_keyring p.1.rnp.secret_keyring p.1).1.ffi) e
      ∙ ap (λ (p : Unit × World H). H.ffi_destroy p.1.ffi) f
