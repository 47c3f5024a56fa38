-- ===== src/Rnp/Decrypt/Recipient.antt =====
-- rnp/rnp.cpp: what is left open when `Rnp::decrypt` looks up the recipient's key for its log.
use sailfish_crypto_plugins.Common.{
  ℕ, String, ◌≡◌, refl, none, some, List, [], ◌∷◌, ◌++◌, Bool-cases, inl, inr,
}
use sailfish_crypto_plugins.Host.{Host, Ret, ok, err}
use sailfish_crypto_plugins.Machine.{
  World, Ptr, Resource, release, give_back, handle, buffer, key_handle, given_text,
}
use sailfish_crypto_plugins.Machine.Ledger.{release_head, release_among}
use sailfish_crypto_plugins.Rnp.Key.{Key, is_own_primary}
use sailfish_crypto_plugins.Rnp.Key.Handles.{own, leaked, load-Loads, destroy-Loads}
use sailfish_crypto_plugins.Rnp.Decrypt.{used_key, used_recipient}

-- At most the handle of one key.
pub data Leak : List Resource → Type 0 where
  none_left : Leak []
  one_left : (a : ℕ) → Leak (handle key_handle a ∷ [])

own-Leak : {T : Type 0} (p : Ptr T) → Leak (own p)
own-Leak none = none_left
own-Leak (some h) = one_left h.addr

leaked-Leak : {H : Host} (k : Key H) → Leak (leaked k)
leaked-Leak k = elim (Bool-cases (is_own_primary k.m_key k.m_primary)) [
  | inl e ↦ rw e none_left
  | inr e ↦ rw e (own-Leak k.m_primary)
]

module _ {H : Host} where
  -- The action returns `v`, and leaves open at most one key's handle more than before.
  abbrev pub Leaves : {A : Type 0} → World H → A → A × World H → Type 0
  Leaves w v out =
      (xs : List Resource) × Leak xs
      × (n : ℕ) × (out ≡ (v, record w { next = n; live = xs ++ w.live }))

  buffer_behind :
      {xs : List Resource} {T : Type 0} (l : Leak xs) (p : Ptr T) (t : String) (w : World H)
      → release (buffer t) (record w { live = xs ++ (own p ++ buffer t ∷ w.live) })
        ≡ (tt, record w { live = xs ++ (own p ++ w.live) })
  unfolding give_back
  buffer_behind none_left none t w = release_head (buffer t) w
  buffer_behind none_left (some h) t w =
      release_among (buffer t) (handle key_handle h.addr ∷ []) w refl
  buffer_behind (one_left a) none t w = release_among (buffer t) (handle key_handle a ∷ []) w refl
  buffer_behind (one_left a) (some h) t w =
      release_among (buffer t) (handle key_handle a ∷ handle key_handle h.addr ∷ []) w refl

  used_key-Leaves :
      (r : Ret String) (w : World H) → Leaves w tt (used_key (given_text r w).0 (given_text r w).1)
  unfolding used_key
  used_key-Leaves (err c) w = ([], none_left, w.next, refl)
  used_key-Leaves (ok t) w =
      let l = load-Loads "keyid" (H.from_latin1 t) (record w { live = buffer t ∷ w.live }) in
      let leak = leaked-Leak l.key in
      (
        leaked l.key,
        leak,
        l.next,
        rw l.run (
            rw (buffer_behind leak l.key.m_key t (record w { next = l.next }))
              (rw (destroy-Loads l.key w l.next))),
      )

  pub used_recipient-Leaves : (r : Ret H.Recipient) (w : World H) → Leaves w tt (used_recipient r w)
  unfolding used_recipient
  used_recipient-Leaves (err c) w = ([], none_left, w.next, refl)
  used_recipient-Leaves (ok user) w = used_key-Leaves (H.recipient_get_keyid user w.ffi) w
