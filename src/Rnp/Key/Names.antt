-- ===== src/Rnp/Key/Names.antt =====
-- rnp/rnp.cpp: the fingerprints of a key that was loaded, as librnp's state gives them.
use sailfish_crypto_plugins.Common.{
  String, ◌≡◌, ◌∙◌, ap, Bool, Option, List, [], ◌∷◌, if◌then◌else◌,
}
use sailfish_crypto_plugins.Host.{Host}
use sailfish_crypto_plugins.Machine.{World, deref}
use sailfish_crypto_plugins.Rnp.Key.{Key, is_own_primary, load}
use sailfish_crypto_plugins.Rnp.Key.Fingerprints.{fingerprint_at, primary_at, fingerprints_at}
use sailfish_crypto_plugins.Rnp.Key.Handles.{owns_at, located, primary_of, load-Loads}

-- The fingerprints of a key and, if it is a primary, of its subkeys.
abbrev pub fingerprints_of : (H : Host) → H.State → Option H.KeyRef → List String
fingerprints_of H s r =
    fingerprint_at H s r ∷ (if owns_at H s r then primary_at H s (primary_of H s r) else [])

-- What holds of the key, its primary and its fingerprints holds of librnp's.
pub loaded_names :
    {H : Host} {A : Type 0} (f : Option H.KeyRef → Option H.KeyRef → List String → A) (s : H.State)
    (k : Key H) (r : Option H.KeyRef)
    → deref k.m_key ≡ r
    → deref k.m_primary ≡ primary_of H s r
    → is_own_primary k.m_key k.m_primary ≡ owns_at H s r
    → f (deref k.m_key) (deref k.m_primary) (fingerprints_at H s k)
      ≡ f r (primary_of H s r) (fingerprints_of H s r)
loaded_names {H = H} {A = A} f s k r refers refers_primary owns =
    ap (λ a. of a (deref k.m_primary) (is_own_primary k.m_key k.m_primary)) refers
    ∙ (ap (λ b. of r b (is_own_primary k.m_key k.m_primary)) refers_primary
        ∙ ap (λ c. of r (primary_of H s r) c) owns)
  where
    of : Option H.KeyRef → Option H.KeyRef → Bool → A
    of a b c = f a b (fingerprint_at H s a ∷ (if c then primary_at H s b else []))

-- The same for a key that was loaded by a key id.
pub load_names :
    {H : Host} {A : Type 0} (f : Option H.KeyRef → List String → A) (id : String) (w : World H)
    → let k = (load "keyid" id w).0 in
      let r = located H w.ffi "keyid" (H.to_latin1 id) in
      f (deref k.m_key) (fingerprints_at H w.ffi k) ≡ f r (fingerprints_of H w.ffi r)
load_names {H = H} f id w =
    let l = load-Loads "keyid" id w in
    let r = located H w.ffi "keyid" (H.to_latin1 id) in
    rw l.run
      (loaded_names {H = H} (λ a b names. f a names) w.ffi l.key r l.refers l.refers_primary l.owns)
