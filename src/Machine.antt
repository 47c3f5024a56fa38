-- ===== src/Machine.antt =====
-- rnp/rnp_p.h: the state of an `Rnp` object, and the actions on it. Beside the object's members the
-- state holds librnp's and a ledger of the handles and buffers that librnp gave out and the code has
-- not given back, with a count of the wrong calls that give one back.
pub mod Ledger
use sailfish_crypto_plugins.Common.{
  ℕ, zero, suc, ◌+◌, String, Bool, true, false, Option, none, some, List, [], ◌∷◌, ◌==◌, str_eq,
  if◌then◌else◌,
}
use sailfish_crypto_plugins.Host.{Host, Ret, ok, err, Query, Call}

-- Rnp::Format
pub data Format : Type 0 where
  rnp_native gpg_compat : Format

-- Rnp::Keyring::Level
pub data Level : Type 0 where
  public secret : Level

-- Rnp::Keyring, without the pointer to its owner.
pub record Keyring : Type 0 where
  pub valid : Bool
  pub modified : Bool
  pub level : Level

-- Rnp
pub record Rnp : Type 0 where
  pub format : Format
  pub keyring_path : String
  pub public_key_path : String
  pub secret_key_path : String
  pub public_keyring : Option Keyring
  pub secret_keyring : Option Keyring

pub data Kind : Type 0 where
  input output sign_op encrypt_op verify_op key_handle sig_handle uid_handle iterator : Kind

abbrev pub same_kind : Kind → Kind → Bool
same_kind input input = true
same_kind output output = true
same_kind sign_op sign_op = true
same_kind encrypt_op encrypt_op = true
same_kind verify_op verify_op = true
same_kind key_handle key_handle = true
same_kind sig_handle sig_handle = true
same_kind uid_handle uid_handle = true
same_kind iterator iterator = true
same_kind _ _ = false

-- A handle has an address; two buffers with one text need not be told apart.
pub data Resource : Type 0 where
  handle : Kind → ℕ → Resource
  buffer : String → Resource

abbrev pub same : Resource → Resource → Bool
same (handle k a) (handle l b) = if same_kind k l then a == b else false
same (buffer s) (buffer t) = str_eq s t
same _ _ = false

-- Gives back the first entry that is the same; `none` where there is none.
unfoldable pub give_back : Resource → List Resource → Option (List Resource)
give_back r [] = none
give_back r (x ∷ xs) =
    let rest = give_back r xs in
    if same x r then some xs else elim rest [ none ↦ none | some ys ↦ some (x ∷ ys) ]

pub record World (H : Host) : Type 0 where
  pub rnp : Rnp
  pub ffi : H.State
  -- The address of the next handle.
  pub next : ℕ
  pub live : List Resource
  pub bad_frees : ℕ

abbrev pub M : Host → Type 0 → Type 0
M H A = World H → A × World H

module _ {H : Host} where
  abbrev pub pure : {A : Type 0} → A → M H A
  pure a w = (a, w)

  infixl 5 ◌>>=◌ ◌>>◌
  abbrev pub ◌>>=◌ : {A B : Type 0} → M H A → (A → M H B) → M H B
  ◌>>=◌ m f w = f (m w).0 (m w).1

  abbrev pub ◌>>◌ : {A B : Type 0} → M H A → M H B → M H B
  ◌>>◌ m n w = n (m w).1

  abbrev pub get : M H (World H)
  get w = (w, w)

  abbrev pub get_rnp : M H Rnp
  get_rnp w = (w.rnp, w)

  abbrev pub set_rnp : Rnp → M H Unit
  set_rnp r w = (tt, record w { rnp = r })

  abbrev pub query : {A : Type 0} → Query H.State A → M H (Ret A)
  query q w = (q w.ffi, w)

  abbrev pub call : {A : Type 0} → Call H.State A → M H (Ret A)
  call c w = let (r, s) = c w.ffi in (r, record w { ffi = s })

  abbrev settle : Resource → World H → Option (List Resource) → World H
  settle r w none = record w { bad_frees = suc w.bad_frees }
  settle r w (some rest) = record w { live = rest }

  -- A call of one of librnp's `…_destroy` functions.
  unfoldable pub release : Resource → M H Unit
  unfolding give_back
  release r w = (tt, settle r w (give_back r w.live))

-- A pointer to what librnp allocated.
pub record Handle (T : Type 0) : Type 0 where
  pub addr : ℕ
  pub obj : T

abbrev pub Ptr : Type 0 → Type 0
Ptr T = Option (Handle T)

abbrev pub deref : {T : Type 0} → Ptr T → Option T
deref none = none
deref (some h) = some h.obj

-- The pointer that a call has filled in, null where it failed.
abbrev pub filled : {T : Type 0} → Ret (Handle T) → Ptr T
filled (ok h) = some h
filled (err c) = none

module _ {H : Host} where
  abbrev pub new_handle : {T : Type 0} → Kind → T → World H → Handle T × World H
  new_handle k x w = (
    record { addr = w.next; obj = x },
    record w { next = suc w.next; live = handle k w.next ∷ w.live },
  )

  abbrev pub given : {T : Type 0} → Kind → Ret T → World H → Ret (Handle T) × World H
  given k (ok x) w = let (h, w') = new_handle k x w in (ok h, w')
  given k (err c) w = (err c, w)

  -- A call that allocates.
  abbrev pub create : {T : Type 0} → Kind → Call H.State T → M H (Ret (Handle T))
  create k c w = let (r, s) = c w.ffi in given k r (record w { ffi = s })

  -- A query that hands out a handle.
  abbrev pub fetch : {T : Type 0} → Kind → Query H.State T → M H (Ret (Handle T))
  fetch k q w = given k (q w.ffi) w

  abbrev pub given_text : Ret String → World H → Ret String × World H
  given_text (ok s) w = (ok s, record w { live = buffer s ∷ w.live })
  given_text (err c) w = (err c, w)

  -- A query that hands out a text for `rnp_buffer_destroy`.
  abbrev pub fetch_text : Query H.State String → M H (Ret String)
  fetch_text q w = given_text (q w.ffi) w

  -- `if (h) rnp_…_destroy(h);`
  unfoldable pub release_ptr : {T : Type 0} → Kind → Ptr T → M H Unit
  release_ptr k none = pure tt
  release_ptr k (some h) = release (handle k h.addr)
