-- ===== src/Rnp/KeyArray/Added.antt =====
-- rnp/rnp.cpp: what the loop over an array of keys has done where it goes on.
use sailfish_crypto_plugins.Common.{
  String, ◌≡◌, ◌⊎◌, inl, inr, ap, ◌∙◌, refl, Bool, true, false, Option, none, some, List, [], ◌∷◌,
}
use sailfish_crypto_plugins.Host.{Host, Ret, ok, err, Call}
use sailfish_crypto_plugins.Machine.{World, M, Handle, Ptr}
use sailfish_crypto_plugins.Machine.Ledger.{Runs}
use sailfish_crypto_plugins.Rnp.Key.{Key, is_yes}
use sailfish_crypto_plugins.Rnp.KeyArray.{key_added, key_checked, add_key, add_keys}

module _ {H : Host} (usage : String) (add : Option H.KeyRef → Call H.State Unit) where
  -- The keys before the first null one may sign and are added, in order, from one state to another.
  pub data Added : List (Key H) → H.State → H.State → Type 0 where
    all_read : {s : H.State} → Added [] s s
    ended : {k : Key H} {keys : List (Key H)} {s : H.State} → k.m_key ≡ none → Added (k ∷ keys) s s
    added :
        {k : Key H} {keys : List (Key H)} {s s' s'' : H.State} (h : Handle H.KeyRef)
        → k.m_key ≡ some h
        → H.key_allows_usage (some h.obj) usage s ≡ ok true
        → add (some h.obj) s ≡ (ok tt, s')
        → Added keys s' s''
        → Added (k ∷ keys) s s''

  -- The loop answers `true` only where it has added the keys.
  abbrev pub Adds : List (Key H) → H.State → Bool → H.State → Type 0
  Adds keys s done s' = (done ≡ false) ⊎ Added keys s s'

  abbrev refused : {s s' : H.State} {keys : List (Key H)} → Adds keys s false s'
  refused = inl refl

  key_added-Adds :
      (k : Key H) (keys : List (Key H)) (h : Handle H.KeyRef) (rest : M H Bool) (r : Ret Unit)
      (s : H.State) (w : World H)
      → k.m_key ≡ some h
      → H.key_allows_usage (some h.obj) usage w.ffi ≡ ok true
      → add (some h.obj) w.ffi ≡ (r, s)
      → Runs (record w { ffi = s }) (Adds keys s) (rest (record w { ffi = s }))
      → Runs w (Adds (k ∷ keys) w.ffi) (key_added usage add r rest (record w { ffi = s }))
  unfolding key_added
  key_added-Adds k keys h rest (err c) s w e can f later = record {
    value = false;
    state = s;
    run = refl;
    why = refused;
  }
  key_added-Adds k keys h rest (ok _) s w e can f later = record {
    value = later.value;
    state = later.state;
    run = later.run;
    why = elim later.why [ inl d ↦ inl d | inr d ↦ inr (added h e can f d) ];
  }

  key_checked-Adds :
      (k : Key H) (keys : List (Key H)) (h : Handle H.KeyRef) (rest : M H Bool) (can : Ret Bool)
      (w : World H)
      → k.m_key ≡ some h
      → H.key_allows_usage (some h.obj) usage w.ffi ≡ can
      → ((s : H.State) → Runs (record w { ffi = s }) (Adds keys s) (rest (record w { ffi = s })))
      → Runs w (Adds (k ∷ keys) w.ffi) (key_checked usage add h (is_yes can) rest w)
  unfolding key_checked
  key_checked-Adds k keys h rest (err c) w e f later = record {
    value = false;
    state = w.ffi;
    run = refl;
    why = refused;
  }
  key_checked-Adds k keys h rest (ok false) w e f later = record {
    value = false;
    state = w.ffi;
    run = refl;
    why = refused;
  }
  key_checked-Adds k keys h rest (ok true) w e f later =
      let (r, s) = add (some h.obj) w.ffi in key_added-Adds k keys h rest r s w e f refl (later s)

  add_key-Adds :
      (k : Key H) (keys : List (Key H)) (p : Ptr H.KeyRef) (rest : M H Bool) (w : World H)
      → k.m_key ≡ p
      → ((s : H.State) → Runs (record w { ffi = s }) (Adds keys s) (rest (record w { ffi = s })))
      → Runs w (Adds (k ∷ keys) w.ffi) (add_key usage add p rest w)
  unfolding add_key
  add_key-Adds k keys none rest w e later = record {
    value = true;
    state = w.ffi;
    run = refl;
    why = inr (ended e);
  }
  add_key-Adds k keys (some h) rest w e later = key_checked-Adds k keys h rest _ w e refl later

  -- The loop over an array of keys answers `false`, or every key before the first null one is allowed
  -- the usage and has been added, in order; it takes and gives back no handle.
  pub add_keys-Adds :
      (keys : List (Key H)) (w : World H) → Runs w (Adds keys w.ffi) (add_keys usage add keys w)
  unfolding add_keys
  add_keys-Adds [] w = record { value = true; state = w.ffi; run = refl; why = inr all_read }
  add_keys-Adds (k ∷ keys) w =
      add_key-Adds k keys k.m_key (add_keys usage add keys) w refl
        (λ s. add_keys-Adds keys (record w { ffi = s }))

  -- If each key before the first null one is allowed the usage and added, the loop answers `true`.
  pub Added-add_keys :
      {keys : List (Key H)} {s' : H.State} (w : World H)
      → Added keys w.ffi s'
      → add_keys usage add keys w ≡ (true, record w { ffi = s' })
  unfolding add_keys add_key key_checked key_added
  Added-add_keys w all_read = refl
  Added-add_keys w (ended {keys = keys} e) =
      ap (λ p. add_key usage add p (add_keys usage add keys) w) e
  Added-add_keys w (added {keys = keys} {s' = s1} h e can f later) =
      ap (λ p. add_key usage add p (add_keys usage add keys) w) e
      ∙ rw can (rw f (Added-add_keys (record w { ffi = s1 }) later))
