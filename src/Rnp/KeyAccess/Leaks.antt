-- ===== src/Rnp/KeyAccess/Leaks.antt =====
-- rnp/rnp.cpp, `Keyring::key`: the handle that is left open when a key is replaced by its subkey.
use sailfish_crypto_plugins.Common.{
  ℕ, String, ◌≡◌, ◌<◌, ◌≤◌, ◌==◌, arith, refl, ap, ◌∙◌, false, Option, none, some, ◌++◌, length,
  Bool-cases, inl, inr, if◌then◌else◌,
}
use sailfish_crypto_plugins.Host.{Host}
use sailfish_crypto_plugins.Machine.{
  World, Handle, Ptr, deref, release_ptr, give_back, key_handle, handle,
}
use sailfish_crypto_plugins.Machine.Ledger.{release-pass}
use sailfish_crypto_plugins.Rnp.Key.{Key, load, destroy, is_own_primary}
use sailfish_crypto_plugins.Rnp.Key.Handles.{
  own, leak, leaked, IsNew, IsTaken, released-Loads, owns_at, primary_of, Loads,
}
use sailfish_crypto_plugins.Rnp.Key.Subkeys.{subkey_at, subkey-Gives, destroy_lem}
use sailfish_crypto_plugins.Rnp.KeyAccess.{subkey_then_destroy}

abbrev pub number_of : {A : Type 0} → Option A → ℕ
number_of none = 0
number_of (some a) = 1

-- How many primaries the key has that are other than itself.
abbrev pub other_primaries : (H : Host) → H.State → Option H.KeyRef → ℕ
other_primaries H s r = if owns_at H s r then 0 else number_of (primary_of H s r)

length-own : {T : Type 0} (p : Ptr T) → length (own p) ≡ number_of (deref p)
length-own none = refl
length-own (some h) = refl

length-leak :
    {T : Type 0} (k p : Ptr T)
    → length (leak k p) ≡ (if is_own_primary k p then 0 else number_of (deref p))
length-leak k p = elim (Bool-cases (is_own_primary k p)) [
  | inl e ↦ rw e refl
  | inr e ↦ rw e (length-own p)
]

later_addr : (a b n : ℕ) → b < n → n ≤ a → (a == b) ≡ false
later_addr a b n lt le = ground arith

-- A handle that was taken before is not the one that was taken after.
not_given :
    {T : Type 0} (h : Handle T) (q : Ptr T) (n : ℕ)
    → h.addr < n
    → IsNew n q
    → give_back (handle key_handle h.addr) (own q) ≡ none
unfolding give_back
not_given h none n lt new = refl
not_given h (some q) n lt new = rw (later_addr q.addr h.addr n lt new) refl

module _ {H : Host} where
  -- Whether the key is its own primary, and which primary it has, is what librnp says.
  pub length-leaked :
      (s : H.State) (r : Option H.KeyRef) (k : Key H)
      → is_own_primary k.m_key k.m_primary ≡ owns_at H s r
      → deref k.m_primary ≡ primary_of H s r
      → length (leaked k) ≡ other_primaries H s r
  length-leaked s r k owns refers =
      length-leak k.m_key k.m_primary
      ∙ (ap (λ b. if b then 0 else number_of (deref k.m_primary)) owns
          ∙ ap (λ q. if owns_at H s r then 0 else number_of q) refers)

  released_past :
      (k p q : Ptr H.KeyRef) (w : World H) (m n : ℕ)
      → IsTaken m k
      → IsNew m q
      → release_ptr key_handle k
          (record w { next = n; live = own q ++ (leak k p ++ (own k ++ w.live)) })
        ≡ (tt, record w { next = n; live = own q ++ (leak k p ++ w.live) })
  unfolding release_ptr
  released_past none p q w m n taken new = refl
  released_past (some h) p q w m n taken new =
      release-pass (handle key_handle h.addr) (own q) (leak (some h) p ++ (own (some h) ++ w.live))
        (leak (some h) p ++ w.live) (record w { next = n }) (not_given h q m taken new)
        (released-Loads (some h) p w n)

  destroy_past :
      (k : Key H) (q : Ptr H.KeyRef) (w : World H) (m n : ℕ)
      → IsTaken m k.m_key
      → IsNew m q
      → destroy k (record w { next = n; live = own q ++ (leaked k ++ (own k.m_key ++ w.live)) })
        ≡ (tt, record w { next = n; live = own q ++ (leaked k ++ w.live) })
  unfolding destroy
  destroy_past k q w m n taken new = released_past k.m_key k.m_primary q w m n taken new

  -- The subkey, with the handle of the key's primary left open, and the key's own given back.
  pub record Swaps (k : Key H) (fp : String) (w : World H) (out : Key H × World H) : Type 0 where
    pub key : Key H
    pub next : ℕ
    pub run : out ≡ (key, record w { next = next; live = own key.m_key ++ (leaked k ++ w.live) })
    pub refers : deref key.m_key ≡ subkey_at H w.ffi (deref k.m_key) (deref k.m_primary) fp
    pub destroys :
        (s : H.State) (n : ℕ)
        → destroy key (record w { ffi = s; next = n; live = own key.m_key ++ (leaked k ++ w.live) })
          ≡ (tt, record w { ffi = s; next = n; live = leaked k ++ w.live })

  pub subkey_then_destroy-Swaps :
      (k : Key H) (fp : String) (w : World H) (n : ℕ)
      → IsTaken n k.m_key
      → Swaps k fp w (
          subkey_then_destroy k fp
            (record w { next = n; live = leaked k ++ (own k.m_key ++ w.live) }))
  unfolding subkey_then_destroy
  subkey_then_destroy-Swaps k fp w n taken =
      let g =
        subkey-Gives k fp (record w { next = n; live = leaked k ++ (own k.m_key ++ w.live) }) in
      record {
        key = g.key;
        next = g.next;
        run = rw g.run (rw (destroy_past k g.key.m_key w n g.next taken g.fresh) refl);
        refers = g.refers;
        destroys = λ s n. destroy_lem g.key (record w { ffi = s; live = leaked k ++ w.live }) n;
      }

  pub loaded_leak :
      (kind value : String) (w : World H) {r p : Option H.KeyRef}
      (l : Loads w r p (load kind value w))
      → leaked l.key ≡ leaked (load kind value w).0
  loaded_leak kind value w l = rw l.run refl
