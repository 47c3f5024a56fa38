-- ===== src/Rnp/KeyArray/Result.antt =====
-- rnp/rnp.cpp: what the loop over an array of keys answers, from librnp's state.
use sailfish_crypto_plugins.Common.{
  String, ◌≡◌, refl, Bool, true, false, Option, none, some, List, [], ◌∷◌,
}
use sailfish_crypto_plugins.Host.{Host, Ret, ok, err, Call}
use sailfish_crypto_plugins.Machine.{World, M, Handle, Ptr, deref}
use sailfish_crypto_plugins.Rnp.Key.{Key, is_yes}
use sailfish_crypto_plugins.Rnp.KeyArray.{key_added, key_checked, add_key, add_keys}

-- The keys that the loop reads: those before the first null one.
abbrev pub first_keys : {R : Type 0} → Option R → List R → List R
first_keys none later = []
first_keys (some r) later = r ∷ later

abbrev pub keys_read : {H : Host} → List (Key H) → List H.KeyRef
keys_read [] = []
keys_read (k ∷ keys) = first_keys (deref k.m_key) (keys_read keys)

module _ {S R : Type 0} (allows : R → S → Bool) (add : R → Call S Unit) where
  abbrev after_add : (S → Bool × S) → Ret Unit × S → Bool × S
  after_add later (err c, s) = (false, s)
  after_add later (ok _, s) = later s

  abbrev add_allowed : R → (S → Bool × S) → S → Bool → Bool × S
  add_allowed r later s false = (false, s)
  add_allowed r later s true = after_add later (add r s)

  abbrev added_at : List R → S → Bool × S
  added_at [] s = (true, s)
  added_at (r ∷ rest) s = add_allowed r (added_at rest) s (allows r s)

abbrev allowed : (H : Host) → String → H.KeyRef → H.State → Bool
allowed H usage r s = is_yes (H.key_allows_usage (some r) usage s)

abbrev add_by : (H : Host) → (Option H.KeyRef → Call H.State Unit) → H.KeyRef → Call H.State Unit
add_by H add r = add (some r)

-- Each key is added if librnp allows it the usage; the first failure ends the loop.
abbrev pub keys_added :
    (H : Host)
    → String
    → (Option H.KeyRef → Call H.State Unit)
    → List H.KeyRef
    → H.State
    → Bool × H.State
keys_added H usage add keys s = added_at (allowed H usage) (add_by H add) keys s

module _ {H : Host} (usage : String) (add : Option H.KeyRef → Call H.State Unit) where
  Answers : (M H Bool) → (H.State → Bool × H.State) → Type 0
  Answers m f = (w : World H) → m w ≡ ((f w.ffi).0, record w { ffi = (f w.ffi).1 })

  key_added-Answers :
      (rest : M H Bool) (later : H.State → Bool × H.State) (q : Ret Unit × H.State) (w : World H)
      → Answers rest later
      → key_added usage add q.0 rest (record w { ffi = q.1 }) ≡ (
        (after_add (allowed H usage) (add_by H add) later q).0,
        record w { ffi = (after_add (allowed H usage) (add_by H add) later q).1 },
      )
  unfolding key_added Answers
  key_added-Answers rest later (err c, s) w h = refl
  key_added-Answers rest later (ok _, s) w h = h (record w { ffi = s })

  key_checked-Answers :
      (h : Handle H.KeyRef) (rest : M H Bool) (later : H.State → Bool × H.State) (can : Bool)
      (w : World H)
      → Answers rest later
      → key_checked usage add h can rest w ≡ (
        (add_allowed (allowed H usage) (add_by H add) h.obj later w.ffi can).0,
        record w { ffi = (add_allowed (allowed H usage) (add_by H add) h.obj later w.ffi can).1 },
      )
  unfolding key_checked
  key_checked-Answers h rest later false w e = refl
  key_checked-Answers h rest later true w e =
      key_added-Answers rest later (add (some h.obj) w.ffi) w e

  add_key-Answers :
      (p : Ptr H.KeyRef) (rest : M H Bool) (later : List H.KeyRef)
      → Answers rest (added_at (allowed H usage) (add_by H add) later)
      → Answers
          (add_key usage add p rest)
          (added_at (allowed H usage) (add_by H add) (first_keys (deref p) later))
  unfolding add_key Answers
  add_key-Answers none rest later e w = refl
  add_key-Answers (some h) rest later e w =
      key_checked-Answers h rest (added_at (allowed H usage) (add_by H add) later)
        (is_yes (H.key_allows_usage (some h.obj) usage w.ffi)) w e

  add_keys-Answers :
      (keys : List (Key H))
      → Answers
          (add_keys usage add keys)
          (added_at (allowed H usage) (add_by H add) (keys_read keys))
  unfolding add_keys Answers
  add_keys-Answers [] w = refl
  add_keys-Answers (k ∷ keys) w =
      add_key-Answers k.m_key (add_keys usage add keys) (keys_read keys) (add_keys-Answers keys) w

  pub add_keys_lem :
      (keys : List (Key H)) (w : World H)
      → let (b, s) = keys_added H usage add (keys_read keys) w.ffi in
        add_keys usage add keys w ≡ (b, record w { ffi = s })
  unfolding Answers
  add_keys_lem keys w = add_keys-Answers keys w
