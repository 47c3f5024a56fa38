-- ===== src/Rnp/Key.antt =====
-- rnp/rnp.cpp, `Rnp::Key`: a pair of handles, the key's own and its primary's.
pub mod Fingerprints
pub mod Handles
pub mod Leak
pub mod Names
pub mod Subkeys
pub mod Removal
pub mod Moves
use sailfish_crypto_plugins.Common.{
  ℕ, zero, suc, ◌+◌, String, Bool, true, false, Option, none, some, List, [], ◌∷◌, ◌++◌, ◌==◌, ◌&&◌,
  str_eq, if◌then◌else◌,
}
use sailfish_crypto_plugins.Host.{Host, Ret, ok, err, RemoveFlags}
use sailfish_crypto_plugins.Machine.{
  World, M, Handle, Ptr, deref, filled, Kind, key_handle, handle, buffer, release, release_ptr,
  pure, query, call, fetch, fetch_text, ◌>>=◌, ◌>>◌,
}

-- Rnp::Key
pub record Key (H : Host) : Type 0 where
  pub m_key : Ptr H.KeyRef
  pub m_primary : Ptr H.KeyRef

-- `call(&flag) == RNP_SUCCESS && flag`
abbrev pub is_yes : Ret Bool → Bool
is_yes (ok b) = b
is_yes (err c) = false

-- `m_key && m_key == m_primary`
abbrev pub is_own_primary : {T : Type 0} → Ptr T → Ptr T → Bool
is_own_primary (some h) (some p) = h.addr == p.addr
is_own_primary _ _ = false

module _ {H : Host} where
  -- Rnp::Key::Key()
  abbrev pub null_key : Key H
  null_key = record { m_key = none; m_primary = none }

  -- `if (call(&text) == RNP_SUCCESS) { s = QString::fromLatin1(text); rnp_buffer_destroy(text); }`
  unfoldable pub take_text : Ret String → M H String
  take_text (ok s) = do release (buffer s); pure (H.from_latin1 s)
  take_text (err c) = pure ""

  abbrev pub give_found : Ret (Option H.KeyRef) → M H (Ptr H.KeyRef)
  give_found (ok (some r)) w = let (p, w') = fetch key_handle (λ _. ok r) w in (filled p, w')
  give_found (ok none) w = (none, w)
  give_found (err c) w = (none, w)

  -- rnp_locate_key, with the pointer that it leaves.
  unfoldable pub locate_key : String → String → M H (Ptr H.KeyRef)
  locate_key kind value w = give_found (H.locate_key kind value w.ffi) w

  primary_by_fprint : Ret String → M H (Ptr H.KeyRef)
  unfolding locate_key
  primary_by_fprint (ok fp) = do p ← locate_key "fingerprint" fp; release (buffer fp); pure p
  primary_by_fprint (err c) = pure none

  find_primary : Ptr H.KeyRef → M H (Ptr H.KeyRef)
  unfolding primary_by_fprint
  find_primary none = pure none
  find_primary (some h) = do
    primary ← query (H.key_is_primary (some h.obj))
    if is_yes primary
        then pure (some h)
        else (fetch_text (H.key_get_primary_fprint (some h.obj)) >>= primary_by_fprint)

  -- Rnp::Key::Key(const Rnp *rnp, const char *key, const QString &value)
  unfoldable pub load : String → String → M H (Key H)
  unfolding locate_key find_primary
  load kind value = do
    key ← locate_key kind (H.to_latin1 value)
    primary ← find_primary key
    pure (record { m_key = key; m_primary = primary })

  subkey_of : Ptr H.KeyRef → ℕ → M H (Key H)
  subkey_of none isub = pure null_key
  subkey_of (some p) isub = do
    sub ← fetch key_handle (H.key_get_subkey_at (some p.obj) isub)
    pure (record { m_key = filled sub; m_primary = some p })

  -- Rnp::Key::Key(const Rnp::Key &key, size_t isub)
  unfoldable pub load_subkey : Key H → ℕ → M H (Key H)
  unfolding subkey_of
  load_subkey key isub = subkey_of key.m_primary isub

  -- Rnp::Key::~Key()
  unfoldable pub destroy : Key H → M H Unit
  unfolding release_ptr
  destroy k = release_ptr key_handle k.m_key

  -- Rnp::Key::isValid()
  abbrev pub is_valid : Key H → Bool
  is_valid k = elim k.m_key [ none ↦ false | some h ↦ true ]

  ptr_keyid : Ptr H.KeyRef → M H String
  unfolding take_text
  ptr_keyid none = pure ""
  ptr_keyid (some p) = fetch_text (H.key_get_keyid (some p.obj)) >>= take_text

  -- Rnp::Key::keyid()
  unfoldable pub keyid : Key H → M H String
  unfolding ptr_keyid
  keyid k = ptr_keyid k.m_primary

  ptr_fingerprint : Ptr H.KeyRef → M H String
  unfolding take_text
  ptr_fingerprint none = pure ""
  ptr_fingerprint (some h) = fetch_text (H.key_get_fprint (some h.obj)) >>= take_text

  -- Rnp::Key::fingerprint()
  unfoldable pub fingerprint : Key H → M H String
  unfolding ptr_fingerprint
  fingerprint k = ptr_fingerprint k.m_key

  append_fprint : List String → Ret String → M H (List String)
  append_fprint fps (ok fp) = do release (buffer fp); pure (fps ++ H.from_latin1 fp ∷ [])
  append_fprint fps (err c) = pure fps

  subkey_fprint : List String → Ret (Handle H.KeyRef) → M H (List String)
  unfolding append_fprint
  subkey_fprint fps (ok sub) = do
    fps' ← fetch_text (H.key_get_fprint (some sub.obj)) >>= append_fprint fps
    release (handle key_handle sub.addr)
    pure fps'
  subkey_fprint fps (err c) = pure fps

  -- The loop over the subkeys from `i`, with the rounds that are left.
  subkey_fprints : Handle H.KeyRef → ℕ → ℕ → List String → M H (List String)
  unfolding subkey_fprint
  subkey_fprints p zero i fps = pure fps
  subkey_fprints p (suc rounds) i fps = do
    fps' ← fetch key_handle (H.key_get_subkey_at (some p.obj) i) >>= subkey_fprint fps
    subkey_fprints p rounds (i + 1) fps'

  counted_fprints : Handle H.KeyRef → List String → Ret ℕ → M H (List String)
  unfolding subkey_fprints
  counted_fprints p fps (ok n) = subkey_fprints p n 0 fps
  counted_fprints p fps (err c) = pure fps

  primary_fprints : Ptr H.KeyRef → List String → M H (List String)
  unfolding counted_fprints
  primary_fprints none fps = pure fps
  primary_fprints (some p) fps =
      query (H.key_get_subkey_count (some p.obj)) >>= counted_fprints p fps

  -- Rnp::Key::fingerprints()
  unfoldable pub fingerprints : Key H → M H (List String)
  unfolding fingerprint primary_fprints
  fingerprints k = do
    fp ← fingerprint k
    if is_own_primary k.m_key k.m_primary
        then primary_fprints k.m_primary (fp ∷ [])
        else pure (fp ∷ [])

  -- The loop of `subkey` from `i`: a candidate that is not the one is destroyed.
  find_subkey : Key H → String → ℕ → ℕ → M H (Key H)
  unfolding load_subkey fingerprint destroy
  find_subkey k fp zero i = pure null_key
  find_subkey k fp (suc rounds) i = do
    sub ← load_subkey k i
    found ← fingerprint sub
    let rest = (destroy sub >> find_subkey k fp rounds (i + 1))
    if str_eq found fp then pure sub else rest

  subkey_among : Key H → String → Ret ℕ → M H (Key H)
  unfolding find_subkey
  subkey_among k fp (ok n) = find_subkey k fp n 0
  subkey_among k fp (err c) = pure null_key

  ptr_subkey : Key H → Ptr H.KeyRef → String → M H (Key H)
  unfolding subkey_among
  ptr_subkey k none fp = pure null_key
  ptr_subkey k (some h) fp = query (H.key_get_subkey_count (some h.obj)) >>= subkey_among k fp

  -- Rnp::Key::subkey(const QString &fp)
  unfoldable pub subkey : Key H → String → M H (Key H)
  unfolding ptr_subkey
  subkey k fp = ptr_subkey k k.m_key fp

  after_remove : Key H → Ret Unit → M H (Bool × Key H)
  unfolding release_ptr
  after_remove k (ok _) = do release_ptr key_handle k.m_key; pure (true, record k { m_key = none })
  after_remove k (err c) = let valid = is_valid k in pure (if valid then false else true, k)

  -- Rnp::Key::remove(), with the key that it leaves behind.
  unfoldable pub remove : Key H → M H (Bool × Key H)
  unfolding after_remove
  remove k = do
    secret ← query (H.key_have_secret (deref k.m_key))
    primary ← query (H.key_is_primary (deref k.m_key))
    removed ← call (
        H.key_remove (deref k.m_key)
          (record { public = true; secret = is_yes secret; subkeys = is_yes primary }))
    after_remove k removed
