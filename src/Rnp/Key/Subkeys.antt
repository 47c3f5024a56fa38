-- ===== src/Rnp/Key/Subkeys.antt =====
-- rnp/rnp.cpp: which key `Key::subkey` finds.
use sailfish_crypto_plugins.Common.{
  ℕ, zero, suc, ◌+◌, String, ◌≡◌, ◌⊎◌, ◌≤◌, arith, refl, Option, none, some, ◌++◌, str_eq,
  Bool-cases, inl, inr, if◌then◌else◌,
}
use sailfish_crypto_plugins.Host.{Host, Ret, ok, err}
use sailfish_crypto_plugins.Machine.{
  World, Ptr, deref, filled, handle, release_ptr, key_handle, given,
}
use sailfish_crypto_plugins.Machine.Ledger.{release_head}
use sailfish_crypto_plugins.Rnp.Key.{
  Key, null_key, destroy, fingerprint, subkey, find_subkey, subkey_among, ptr_subkey, subkey_of,
}
use sailfish_crypto_plugins.Rnp.Key.Fingerprints.{fingerprint_at, fingerprint_lem}
use sailfish_crypto_plugins.Rnp.Key.Handles.{own, IsNew}

abbrev taken : {A : Type 0} → Ret A → Option A
taken (ok a) = some a
taken (err c) = none

-- The `i`-th subkey, from librnp's state.
abbrev pub candidate : (H : Host) → H.State → Option H.KeyRef → ℕ → Option H.KeyRef
candidate H s none i = none
candidate H s (some p) i = taken (H.key_get_subkey_at (some p) i s)

-- The first of the `n` subkeys from the `i`-th on that has the fingerprint.
abbrev pub first_subkey : (H : Host) → H.State → Option H.KeyRef → String → ℕ → ℕ → Option H.KeyRef
first_subkey H s p fp zero i = none
first_subkey H s p fp (suc n) i =
    let c = candidate H s p i in
    if str_eq (fingerprint_at H s c) fp then c else first_subkey H s p fp n (i + 1)

abbrev among : (H : Host) → H.State → Option H.KeyRef → String → Ret ℕ → Option H.KeyRef
among H s p fp (ok n) = first_subkey H s p fp n 0
among H s p fp (err c) = none

abbrev pub subkey_at :
    (H : Host) → H.State → Option H.KeyRef → Option H.KeyRef → String → Option H.KeyRef
subkey_at H s none p fp = none
subkey_at H s (some r) p fp = among H s p fp (H.key_get_subkey_count (some r) s)

IsNew-newer : {T : Type 0} (p : Ptr T) (m n : ℕ) → m ≤ n → IsNew n p → IsNew m p
IsNew-newer none m n h new = tt
IsNew-newer (some q) m n h new = omega arith

module _ {H : Host} where
  -- What an action on `w` gave is a key for `r`; it took that key's handle and nothing else.
  pub record Gives (w : World H) (r : Option H.KeyRef) (out : Key H × World H) : Type 0 where
    pub key : Key H
    pub next : ℕ
    pub run : out ≡ (key, record w { next = next; live = own key.m_key ++ w.live })
    pub refers : deref key.m_key ≡ r
    pub fresh : IsNew w.next key.m_key
    pub grows : w.next ≤ next

  nothing : (w : World H) → Gives w none (null_key, w)
  nothing w = record {
    key = null_key;
    next = w.next;
    run = refl;
    refers = refl;
    fresh = tt;
    grows = omega arith;
  }

  given-Gives :
      (p : Ptr H.KeyRef) (r : Ret H.KeyRef) (w : World H)
      → let (g, w') = given key_handle r w in
        Gives w (taken r) (record { m_key = filled g; m_primary = p }, w')
  given-Gives p (ok r) w = record {
    key = _;
    next = _;
    run = refl;
    refers = refl;
    fresh = omega arith;
    grows = omega arith;
  }
  given-Gives p (err c) w = record {
    key = _;
    next = _;
    run = refl;
    refers = refl;
    fresh = tt;
    grows = omega arith;
  }

  subkey_of-Gives :
      (p : Ptr H.KeyRef) (i : ℕ) (w : World H)
      → Gives w (candidate H w.ffi (deref p) i) (subkey_of p i w)
  unfolding subkey_of
  subkey_of-Gives none i w = nothing w
  subkey_of-Gives (some p) i w = given-Gives (some p) _ w

  pub ptr_released :
      (p : Ptr H.KeyRef) (w : World H) (n : ℕ)
      → release_ptr key_handle p (record w { next = n; live = own p ++ w.live })
        ≡ (tt, record w { next = n })
  unfolding release_ptr
  ptr_released none w n = refl
  ptr_released (some h) w n = release_head (handle key_handle h.addr) (record w { next = n })

  -- The destructor gives back the key's own handle.
  pub destroy_lem :
      (k : Key H) (w : World H) (n : ℕ)
      → destroy k (record w { next = n; live = own k.m_key ++ w.live })
        ≡ (tt, record w { next = n })
  unfolding destroy
  destroy_lem k w n = ptr_released k.m_key w n

  find_subkey-Gives :
      (k : Key H) (fp : String) (n i : ℕ) (w : World H)
      → Gives w (first_subkey H w.ffi (deref k.m_primary) fp n i) (find_subkey k fp n i w)
  unfolding find_subkey
  find_subkey-Gives k fp zero i w = nothing w
  find_subkey-Gives k fp (suc n) i w =
      let sub = subkey_of-Gives k.m_primary i w in
      let w1 = record w { next = sub.next; live = own sub.key.m_key ++ w.live } in
      let e = fingerprint_lem sub.key w1 in
      let later = find_subkey-Gives k fp n (i + 1) (record w { next = sub.next }) in
      rw (← sub.refers)
        (elim (Bool-cases (str_eq (fingerprint_at H w.ffi (deref sub.key.m_key)) fp)) [
          | inl found ↦ rw found (record {
            key = sub.key;
            next = sub.next;
            run = rw sub.run (rw e (rw found));
            refers = refl;
            fresh = sub.fresh;
            grows = sub.grows;
          })
          | inr other ↦ rw other (record {
            key = later.key;
            next = later.next;
            run = rw sub.run (rw e (rw other (rw (destroy_lem sub.key w sub.next) later.run)));
            refers = later.refers;
            fresh = IsNew-newer later.key.m_key w.next sub.next sub.grows later.fresh;
            grows = omega (arith, sub.grows, later.grows);
          })
        ])

  subkey_among-Gives :
      (k : Key H) (fp : String) (r : Ret ℕ) (w : World H)
      → Gives w (among H w.ffi (deref k.m_primary) fp r) (subkey_among k fp r w)
  unfolding subkey_among
  subkey_among-Gives k fp (ok n) w = find_subkey-Gives k fp n 0 w
  subkey_among-Gives k fp (err c) w = nothing w

  ptr_subkey-Gives :
      (k : Key H) (p : Ptr H.KeyRef) (fp : String) (w : World H)
      → Gives w (subkey_at H w.ffi (deref p) (deref k.m_primary) fp) (ptr_subkey k p fp w)
  unfolding ptr_subkey
  ptr_subkey-Gives k none fp w = nothing w
  ptr_subkey-Gives k (some h) fp w = subkey_among-Gives k fp _ w

  -- `Key::subkey` returns the first subkey, in librnp's order, whose fingerprint is the one asked for,
  -- and the null key if there is none; it takes that key's handle, gives back those of the subkeys
  -- that it passed over, and changes nothing else.
  pub subkey-Gives :
      (k : Key H) (fp : String) (w : World H)
      → Gives w (subkey_at H w.ffi (deref k.m_key) (deref k.m_primary) fp) (subkey k fp w)
  unfolding subkey
  subkey-Gives k fp w = ptr_subkey-Gives k k.m_key fp w

-- A key that is null, or has the primary.
abbrev pub HasPrimary : {H : Host} → Option H.KeyRef → Key H → Type 0
HasPrimary p k = (deref k.m_key ≡ none) ⊎ (deref k.m_primary ≡ p)

module _ {H : Host} where
  subkey_of-HasPrimary :
      (p : Ptr H.KeyRef) (i : ℕ) (w : World H) → HasPrimary (deref p) (subkey_of p i w).0
  unfolding subkey_of
  subkey_of-HasPrimary none i w = inl refl
  subkey_of-HasPrimary (some p) i w = inr refl

  find_subkey-HasPrimary :
      (k : Key H) (fp : String) (n i : ℕ) (w : World H)
      → HasPrimary (deref k.m_primary) (find_subkey k fp n i w).0
  unfolding find_subkey
  find_subkey-HasPrimary k fp zero i w = inl refl
  find_subkey-HasPrimary k fp (suc n) i w =
      let (sub, w1) = subkey_of k.m_primary i w in
      let (own_fp, w2) = fingerprint sub w1 in
      elim (Bool-cases (str_eq own_fp fp)) [
        | inl found ↦ rw found (subkey_of-HasPrimary k.m_primary i w)
        | inr other ↦ rw other (find_subkey-HasPrimary k fp n (i + 1) (destroy sub w2).1)
      ]

  subkey_among-HasPrimary :
      (k : Key H) (fp : String) (r : Ret ℕ) (w : World H)
      → HasPrimary (deref k.m_primary) (subkey_among k fp r w).0
  unfolding subkey_among
  subkey_among-HasPrimary k fp (ok n) w = find_subkey-HasPrimary k fp n 0 w
  subkey_among-HasPrimary k fp (err c) w = inl refl

  ptr_subkey-HasPrimary :
      (k : Key H) (p : Ptr H.KeyRef) (fp : String) (w : World H)
      → HasPrimary (deref k.m_primary) (ptr_subkey k p fp w).0
  unfolding ptr_subkey
  ptr_subkey-HasPrimary k none fp w = inl refl
  ptr_subkey-HasPrimary k (some h) fp w = subkey_among-HasPrimary k fp _ w

  -- A subkey that `Key::subkey` returns has the primary of the key that it was asked of.
  pub subkey-HasPrimary :
      (k : Key H) (fp : String) (w : World H) → HasPrimary (deref k.m_primary) (subkey k fp w).0
  unfolding subkey
  subkey-HasPrimary k fp w = ptr_subkey-HasPrimary k k.m_key fp w
