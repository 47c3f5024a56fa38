-- ===== src/Qmf/Signing/Signers.antt =====
-- qmf/rnp/plugin.cpp: which keys the loop of `QMailCryptoRNP::sign` over the fingerprints gives.
use sailfish_crypto_plugins.Common.{
  ℕ, String, ◌≡◌, ◌⊎◌, refl, sym, ap, ◌∙◌, Bool, true, false, Option, none, some, List, [], ◌∷◌,
  ◌++◌, all, map, map-append, append-nil, append_assoc, Bool-cases, inl, inr,
}
use sailfish_crypto_plugins.Host.{Host}
use sailfish_crypto_plugins.Machine.{World, Keyring, Ptr, Resource, deref}
use sailfish_crypto_plugins.Rnp.Key.{Key, is_valid}
use sailfish_crypto_plugins.Rnp.Key.Handles.{own, leaked, located, load-Loads}
use sailfish_crypto_plugins.Rnp.KeyAccess.{from_fingerprint}
use sailfish_crypto_plugins.Rnp.Ring.Laws.{secret_keyring_cached}
use sailfish_crypto_plugins.Qmf.Signing.{load_signers}

abbrev pub is_some : {A : Type 0} → Option A → Bool
is_some none = false
is_some (some a) = true

-- The key that librnp has for a fingerprint.
abbrev pub signer_at : (H : Host) → H.State → String → Option H.KeyRef
signer_at H s fp = located H s "fingerprint" (H.to_latin1 fp)

abbrev pub all_there : (H : Host) → H.State → List String → Bool
all_there H s fps = all (λ fp. is_some (signer_at H s fp)) fps

valid_of_deref : {H : Host} (k : Key H) → is_valid k ≡ is_some (deref k.m_key)
valid_of_deref {H} k = of_ptr k.m_key
  where
    of_ptr : (p : Ptr H.KeyRef) → (elim p [ none ↦ false | some h ↦ true ]) ≡ is_some (deref p)
    of_ptr none = refl
    of_ptr (some h) = refl

-- A key appended before the rest is the first of the rest.
refs-append :
    {A B : Type 0} (f : A → B) (before : List A) (a : A) (rest : List B)
    → map f (before ++ a ∷ []) ++ rest ≡ map f before ++ f a ∷ rest
refs-append f before a rest =
    rw (map-append f before (a ∷ [])) (append_assoc (map f before) (f a ∷ []) rest)

module _ {H : Host} where
  -- The keys of an array, as librnp's.
  abbrev pub refs_of : List (Key H) → List (Option H.KeyRef)
  refs_of keys = map (λ k. deref k.m_key) keys

  -- What the loop gave, from `w` with the keys in `before`: it says whether librnp has them all, and
  -- if so the array holds them in order.
  pub record LoadsAll (w : World H) (before : List (Key H)) (fps : List String)
      (out : (List (Key H) × Bool) × World H) : Type 0 where
    pub signers : List (Key H)
    pub next : ℕ
    pub live : List Resource
    pub run : out ≡ ((signers, all_there H w.ffi fps), record w { next = next; live = live })
    pub complete :
        (all_there H w.ffi fps ≡ false)
        ⊎ (refs_of signers ≡ refs_of before ++ map (signer_at H w.ffi) fps)

  pub load_signers-LoadsAll :
      (kr : Keyring) (fps : List String) (before : List (Key H)) (w : World H)
      → w.rnp.secret_keyring ≡ some kr
      → LoadsAll w before fps (load_signers fps before w)
  unfolding load_signers from_fingerprint
  load_signers-LoadsAll kr [] before w e = record {
    signers = before;
    next = w.next;
    live = w.live;
    run = refl;
    complete = inr (sym (append-nil (refs_of before)));
  }
  load_signers-LoadsAll kr (fp ∷ fps) before w e =
      let l = load-Loads "fingerprint" fp w in
      let w1 = record w { next = l.next; live = leaked l.key ++ (own l.key.m_key ++ w.live) } in
      let later = load_signers-LoadsAll kr fps (before ++ l.key ∷ []) w1 e in
      let valid = valid_of_deref l.key ∙ ap is_some l.refers in
      elim (Bool-cases (is_some (signer_at H w.ffi fp))) [
        | inl there ↦ record {
          signers = later.signers;
          next = later.next;
          live = later.live;
          run =
              rw there
                (rw (secret_keyring_cached kr w e) (rw l.run (rw (valid ∙ there) later.run)));
          complete = elim later.complete [
            | inl absent ↦ inl (rw there absent)
            | inr held ↦
                inr (held ∙ (refs-append (λ k. deref k.m_key) before l.key _ ∙ rw l.refers refl))
          ];
        }
        | inr missing ↦ record {
          signers = before ++ l.key ∷ [];
          next = l.next;
          live = w1.live;
          run =
              rw missing (rw (secret_keyring_cached kr w e) (rw l.run (rw (valid ∙ missing) refl)));
          complete = inl (rw missing refl);
        }
      ]
