-- ===== src/Rnp/Key/Handles.antt =====
-- rnp/rnp.cpp: which handles `Rnp::Key`'s constructors and destructor take and give back.
use sailfish_crypto_plugins.Common.{
  ℕ, suc, String, ◌≡◌, refl, sym, ◌∙◌, Bool, true, false, all, Option, none, some, List, [], ◌∷◌,
  ◌++◌, ◌==◌, Bool-cases, inl, inr, if◌then◌else◌, arith, ◌≤◌, ◌<◌, ==_refl,
}
use sailfish_crypto_plugins.Host.{Host, Ret, ok, err}
use sailfish_crypto_plugins.Machine.{
  World, Handle, Ptr, deref, Resource, handle, buffer, release, release_ptr, key_handle, given_text,
  new_handle,
}
use sailfish_crypto_plugins.Machine.Ledger.{is_of_key, release_head, release_second}
use sailfish_crypto_plugins.Rnp.Key.{
  Key, load, destroy, give_found, is_yes, is_own_primary, find_primary, primary_by_fprint,
}

-- The handle that `~Key` gives back.
abbrev pub own : {T : Type 0} → Ptr T → List Resource
own none = []
own (some h) = handle key_handle h.addr ∷ []

abbrev pub leak : {T : Type 0} → Ptr T → Ptr T → List Resource
leak k p = if is_own_primary k p then [] else own p

-- The primary's handle, if it is another than the key's.
abbrev pub leaked : {H : Host} → Key H → List Resource
leaked k = leak k.m_key k.m_primary

all-own : {T : Type 0} (p : Ptr T) → all is_of_key (own p) ≡ true
all-own none = refl
all-own (some h) = refl

pub all-leaked : {H : Host} (k : Key H) → all is_of_key (leaked k) ≡ true
all-leaked k = elim (Bool-cases (is_own_primary k.m_key k.m_primary)) [
  | inl e ↦ rw e refl
  | inr e ↦ rw e (all-own k.m_primary)
]

-- The address is below `n`.
abbrev pub IsTaken : {T : Type 0} → ℕ → Ptr T → Type 0
IsTaken n none = Unit
IsTaken n (some h) = h.addr < n

-- The address is not below `n`.
abbrev pub IsNew : {T : Type 0} → ℕ → Ptr T → Type 0
IsNew n none = Unit
IsNew n (some h) = n ≤ h.addr

not_own :
    {T : Type 0} (h : Handle T) (n : ℕ) (p : Ptr T)
    → h.addr < n
    → IsNew n p
    → is_own_primary (some h) p ≡ false
not_own h n none lt new = refl
not_own h n (some p) lt new = ground arith

abbrev found : {A : Type 0} → Ret (Option A) → Option A
found (ok r) = r
found (err c) = none

-- What rnp_locate_key finds, from librnp's state.
abbrev pub located : (H : Host) → H.State → String → String → Option H.KeyRef
located H s kind value = found (H.locate_key kind value s)

abbrev primary_by : (H : Host) → H.State → Ret String → Option H.KeyRef
primary_by H s (ok fp) = located H s "fingerprint" fp
primary_by H s (err c) = none

-- Is the key a primary.
abbrev pub owns_at : (H : Host) → H.State → Option H.KeyRef → Bool
owns_at H s none = false
owns_at H s (some r) = is_yes (H.key_is_primary (some r) s)

-- A key's primary: itself, or the key that has the primary's fingerprint.
abbrev pub primary_of : (H : Host) → H.State → Option H.KeyRef → Option H.KeyRef
primary_of H s none = none
primary_of H s (some r) =
    if is_yes (H.key_is_primary (some r) s)
    then some r
    else primary_by H s (H.key_get_primary_fprint (some r) s)

module _ {H : Host} where
  -- What an action on `w` gave is a pointer to `p`; it took one new handle if that is not null.
  record Finds (w : World H) (p : Option H.KeyRef) (out : Ptr H.KeyRef × World H) : Type 0 where
    ptr : Ptr H.KeyRef
    next : ℕ
    run : out ≡ (ptr, record w { next = next; live = own ptr ++ w.live })
    refers : deref ptr ≡ p
    fresh : IsNew w.next ptr
    grows : w.next ≤ next

  given_primary :
      (q : Ret (Option H.KeyRef)) (fp : String) (w : World H)
      → let (p, w') = give_found q (record w { live = buffer fp ∷ w.live }) in
        Finds w (found q) (p, (release (buffer fp) w').1)
  given_primary (ok none) fp w = record {
    ptr = none;
    next = w.next;
    run = rw (release_head (buffer fp) w);
    refers = refl;
    fresh = tt;
    grows = omega arith;
  }
  given_primary (ok (some r)) fp w = record {
    ptr = some (record { addr = w.next; obj = r });
    next = suc w.next;
    run = rw (
        release_second (handle key_handle w.next) (buffer fp) (record w { next = suc w.next })
          refl);
    refers = refl;
    fresh = omega arith;
    grows = omega arith;
  }
  given_primary (err c) fp w = record {
    ptr = none;
    next = w.next;
    run = rw (release_head (buffer fp) w);
    refers = refl;
    fresh = tt;
    grows = omega arith;
  }

  primary_by_fprint-Finds :
      (r : Ret String) (w : World H)
      → Finds w (primary_by H w.ffi r) (primary_by_fprint (given_text r w).0 (given_text r w).1)
  unfolding primary_by_fprint
  primary_by_fprint-Finds (ok fp) w = given_primary (H.locate_key "fingerprint" fp w.ffi) fp w
  primary_by_fprint-Finds (err c) w = record {
    ptr = none;
    next = w.next;
    run = refl;
    refers = refl;
    fresh = tt;
    grows = omega arith;
  }

  -- What an action on `w` gave is a key for `r` with the primary `p`; it took the key's own handle,
  -- and one for the primary if that is another.
  pub record Loads (w : World H) (r p : Option H.KeyRef) (out : Key H × World H) : Type 0 where
    pub key : Key H
    pub next : ℕ
    pub run : out ≡ (key, record w { next = next; live = leaked key ++ (own key.m_key ++ w.live) })
    pub refers : deref key.m_key ≡ r
    pub refers_primary : deref key.m_primary ≡ p
    pub owns : is_own_primary key.m_key key.m_primary ≡ owns_at H w.ffi r
    pub taken : IsTaken next key.m_key

  with_primary : Ptr H.KeyRef → World H → Key H × World H
  with_primary k w = let (p, w') = find_primary k w in (record { m_key = k; m_primary = p }, w')

  no_key : (w : World H) → Loads w none none (with_primary none w)
  unfolding with_primary find_primary
  no_key w = record {
    key = record { m_key = none; m_primary = none };
    next = w.next;
    run = refl;
    refers = refl;
    refers_primary = refl;
    owns = refl;
    taken = tt;
  }

  some_key :
      (r : H.KeyRef) (w : World H)
      → let (h, w') = new_handle key_handle r w in
        Loads w (some r) (primary_of H w.ffi (some r)) (with_primary (some h) w')
  unfolding with_primary find_primary
  some_key r w = elim (Bool-cases (is_yes (H.key_is_primary (some r) w.ffi))) [
    | inl e ↦ rw e (record {
      key = record { m_key = some h; m_primary = some h };
      next = suc w.next;
      run = rw (==_refl w.next);
      refers = refl;
      refers_primary = refl;
      owns = ==_refl w.next ∙ sym e;
      taken = omega arith;
    })
    | inr e ↦ rw e (record {
      key = record { m_key = some h; m_primary = f.ptr };
      next = f.next;
      run = rw (not_own h (suc w.next) f.ptr (omega arith) f.fresh) (rw f.run);
      refers = refl;
      refers_primary = f.refers;
      owns = not_own h (suc w.next) f.ptr (omega arith) f.fresh ∙ sym e;
      taken = omega (arith, f.grows);
    })
  ]
    where
      h : Handle H.KeyRef
      h = record { addr = w.next; obj = r }

      f :
          Finds
            (new_handle key_handle r w).1
            (primary_by H w.ffi (H.key_get_primary_fprint (some r) w.ffi))
            (primary_by_fprint
              (given_text (H.key_get_primary_fprint (some r) w.ffi) (new_handle key_handle r w).1).0
              (given_text
                (H.key_get_primary_fprint (some r) w.ffi)
                (new_handle key_handle r w).1).1)
      f = primary_by_fprint-Finds _ (new_handle key_handle r w).1

  located-Loads :
      (q : Ret (Option H.KeyRef)) (w : World H)
      → let (k, w') = give_found q w in
        Loads w (found q) (primary_of H w.ffi (found q)) (with_primary k w')
  located-Loads (ok none) w = no_key w
  located-Loads (ok (some r)) w = some_key r w
  located-Loads (err c) w = no_key w

  -- The constructor from an identifier gives the key that librnp locates, or a null one, and with
  -- it the key's primary. It takes the key's handle and, if the primary is another key, the
  -- primary's, gives back the buffers that it took, and changes nothing else.
  pub load-Loads :
      (kind value : String) (w : World H)
      → let r = located H w.ffi kind (H.to_latin1 value) in
        Loads w r (primary_of H w.ffi r) (load kind value w)
  unfolding load with_primary
  load-Loads kind value w = located-Loads (H.locate_key kind (H.to_latin1 value) w.ffi) w

  pub released-Loads :
      (k p : Ptr H.KeyRef) (w : World H) (n : ℕ)
      → release_ptr key_handle k (record w { next = n; live = leak k p ++ (own k ++ w.live) })
        ≡ (tt, record w { next = n; live = leak k p ++ w.live })
  unfolding release_ptr
  released-Loads none p w n = refl
  released-Loads (some h) none w n = release_head (handle key_handle h.addr) (record w { next = n })
  released-Loads (some h) (some p) w n = elim (Bool-cases (h.addr == p.addr)) [
    | inl e ↦ rw e (release_head (handle key_handle h.addr) (record w { next = n }))
    | inr e ↦ rw e (
        release_second (handle key_handle p.addr) (handle key_handle h.addr) (record w { next = n })
          (ground arith))
  ]

  -- The destructor of a key that was loaded gives back the key's own handle, and not its primary's.
  pub destroy-Loads :
      (k : Key H) (w : World H) (n : ℕ)
      → destroy k (record w { next = n; live = leaked k ++ (own k.m_key ++ w.live) })
        ≡ (tt, record w { next = n; live = leaked k ++ w.live })
  unfolding destroy
  destroy-Loads k w n = released-Loads k.m_key k.m_primary w n

  -- A key that is loaded from an identifier and destroyed leaves open the handle of its primary if
  -- that is another than its own; every other handle and buffer is given back, none of them twice,
  -- and nothing else changes.
  pub destroy-load :
      (kind value : String) (w : World H)
      → let (k, w') = load kind value w in
        (n : ℕ) × (destroy k w' ≡ (tt, record w { next = n; live = leaked k ++ w.live }))
  destroy-load kind value w =
      let l = load-Loads kind value w in (l.next, rw l.run (destroy-Loads l.key w l.next))
