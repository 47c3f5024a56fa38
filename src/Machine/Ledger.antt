-- ===== src/Machine/Ledger.antt =====
-- rnp/rnp_p.h: laws of the ledger of open handles and buffers.
use sailfish_crypto_plugins.Common.{
  ℕ, suc, ◌≡◌, ◌≢◌, refl, ap, arith, ◌++◌, none, some, List, [], ◌∷◌, Bool, true, all, eq_refl,
  ==_refl, false, inl, inr, Option-cases, Bool-cases,
}
use sailfish_crypto_plugins.Host.{Host}
use sailfish_crypto_plugins.Machine.{
  Rnp, World, M, Resource, handle, buffer, Kind, same_kind, same, give_back, release, input,
  key_handle, uid_handle,
}

-- A key's handle, its own or one of its user ids'.
abbrev pub is_of_key : Resource → Bool
is_of_key (handle key_handle a) = true
is_of_key (handle uid_handle a) = true
is_of_key _ = false

same_kind_refl : (k : Kind) → same_kind k k ≡ true
same_kind_refl input = refl
same_kind_refl _ = refl

pub same_refl : (r : Resource) → same r r ≡ true
same_refl (handle k a) = rw (same_kind_refl k) (==_refl a)
same_refl (buffer s) = eq_refl s

-- The entry that was made last is the first one found.
pub give_back_head : (r : Resource) (xs : List Resource) → give_back r (r ∷ xs) ≡ some xs
unfolding give_back
give_back_head r xs = rw (same_refl r)

-- What is not among the first entries is found behind them.
pub give_back-append :
    (r : Resource) (xs ys : List Resource)
    → give_back r xs ≡ none
    → give_back r (xs ++ r ∷ ys) ≡ some (xs ++ ys)
unfolding give_back
give_back-append r [] ys h = give_back_head r ys
give_back-append r (x ∷ xs) ys h = elim (Bool-cases (same x r)) [
  | inl e ↦ cc (rw (e, give_back) at h)
  | inr e ↦ elim (Option-cases (give_back r xs)) [
    | inl f ↦ rw e (rw (give_back-append r xs ys f))
    | inr (zs, f) ↦ cc (rw (f, give_back) at (rw (e, give_back) at h))
  ]
]

-- An entry that is found stays so behind others that are not it.
pub give_back-pass :
    (r : Resource) (xs zs ys : List Resource)
    → give_back r xs ≡ none
    → give_back r zs ≡ some ys
    → give_back r (xs ++ zs) ≡ some (xs ++ ys)
unfolding give_back
give_back-pass r [] zs ys h e = e
give_back-pass r (x ∷ xs) zs ys h e = elim (Bool-cases (same x r)) [
  | inl f ↦ cc (rw (f, give_back) at h)
  | inr f ↦ elim (Option-cases (give_back r xs)) [
    | inl g ↦ rw f (rw (give_back-pass r xs zs ys g e))
    | inr (us, g) ↦ cc (rw (g, give_back) at (rw (f, give_back) at h))
  ]
]

n_suc : (n : ℕ) → suc n ≢ n
n_suc n e = omega arith

module _ {H : Host} where
  -- A resource that is given back once is so behind others that are not it.
  pub release-pass :
      (r : Resource) (xs zs ys : List Resource) (w : World H)
      → give_back r xs ≡ none
      → release r (record w { live = zs }) ≡ (tt, record w { live = ys })
      → release r (record w { live = xs ++ zs }) ≡ (tt, record w { live = xs ++ ys })
  unfolding release
  release-pass r xs zs ys w h e = elim (Option-cases (give_back r zs)) [
    | inl f ↦ absurd (n_suc w.bad_frees (ap (λ (o : Unit × World H). o.1.bad_frees) (rw f at e)))
    | inr (us, f) ↦ rw (give_back-pass r xs zs us h f) (
        ap (λ vs. (tt, record w { live = xs ++ vs }))
          (ap (λ (o : Unit × World H). o.1.live) (rw f at e)))
  ]

  -- What a call gave out last is given back by one `…_destroy`.
  pub release_head :
      (r : Resource) (w : World H) → release r (record w { live = r ∷ w.live }) ≡ (tt, w)
  unfolding release
  release_head r w = rw (give_back_head r w.live)

  -- The same, where one other resource was given out in between.
  pub release_second :
      (x r : Resource) (w : World H)
      → same x r ≡ false
      → release r (record w { live = x ∷ r ∷ w.live }) ≡ (tt, record w { live = x ∷ w.live })
  unfolding release
  release_second x r w e = rw (e, give_back) (rw (give_back_head r w.live))

  -- The action returns `v`, and leaves all as it was but for the addresses that it has used up.
  abbrev pub Quiet : {A : Type 0} → M H A → World H → A → Type 0
  Quiet m w v = (n : ℕ) × (m w ≡ (v, record w { next = n }))

  -- The same, where the resources `xs` were given out in between.
  pub release_among :
      (r : Resource) (xs : List Resource) (w : World H)
      → give_back r xs ≡ none
      → release r (record w { live = xs ++ r ∷ w.live }) ≡ (tt, record w { live = xs ++ w.live })
  unfolding release
  release_among r xs w e = rw (give_back-append r xs w.live e)

  -- What an action on `w` gave is a value that `P` holds of; of the state it changed librnp's at most.
  pub record Runs {A : Type 0} (w : World H) (P : A → H.State → Type 0) (out : A × World H)
      : Type 0 where
    pub value : A
    pub state : H.State
    pub run : out ≡ (value, record w { ffi = state })
    pub why : P value state

  -- The same where it has used up addresses too: whatever it took, it has given back.
  pub record Settles {A : Type 0} (w : World H) (P : A → H.State → Type 0) (out : A × World H)
      : Type 0 where
    pub value : A
    pub state : H.State
    pub next : ℕ
    pub run : out ≡ (value, record w { ffi = state; next = next })
    pub why : P value state

  -- What is described of an action's value, the plugin and librnp is so, and beyond that and the
  -- addresses all is as it was: whatever the action took, it has given back.
  abbrev pub Does : {A : Type 0} → World H → A × Rnp × H.State → A × World H → Type 0
  Does w v out = (n : ℕ) × (out ≡ (v.0, record w { rnp = v.1; ffi = v.2; next = n }))

  -- The same where handles of keys and user ids may be left open, and nothing else.
  pub record Reaches {A : Type 0} (w : World H) (v : A × Rnp × H.State) (out : A × World H)
      : Type 0 where
    pub left : List Resource
    pub next : ℕ
    pub run : out ≡ (v.0, record w { rnp = v.1; ffi = v.2; next = next; live = left ++ w.live })
    pub of_keys : all is_of_key left ≡ true
