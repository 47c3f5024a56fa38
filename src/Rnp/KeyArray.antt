-- ===== src/Rnp/KeyArray.antt =====
-- rnp/rnp.cpp: the loop over an array of keys, which `Rnp::sign` has once and `Rnp::encrypt` twice.
-- An array that a null key ends is a list; what lies behind its first null key is never read, and the
-- callers put one at the end.
pub mod Added
pub mod Result
use sailfish_crypto_plugins.Common.{Bool, true, false, String, Option, none, some, List, [], ◌∷◌}
use sailfish_crypto_plugins.Host.{Host, Ret, ok, err, Call}
use sailfish_crypto_plugins.Machine.{World, M, Handle, Ptr, pure, query, call, ◌>>=◌}
use sailfish_crypto_plugins.Rnp.Key.{Key, is_yes}

-- `usage` is what librnp is asked of each key, and `add` the call that adds it to the operation.
module _ {H : Host} (usage : String) (add : Option H.KeyRef → Call H.State Unit) where
  -- One round of the loop over the keys, with the rounds after it; `false` is a jump to `out`.
  key_added : Ret Unit → M H Bool → M H Bool
  key_added (err c) rest = pure false
  key_added (ok _) rest = rest

  key_checked : Handle H.KeyRef → Bool → M H Bool → M H Bool
  unfolding key_added
  key_checked h false rest = pure false
  key_checked h true rest = call (add (some h.obj)) >>= λ res. key_added res rest

  add_key : Ptr H.KeyRef → M H Bool → M H Bool
  unfolding key_checked
  add_key none rest = pure true
  add_key (some h) rest =
      query (H.key_allows_usage (some h.obj) usage) >>= λ can. key_checked h (is_yes can) rest

  unfoldable pub add_keys : List (Key H) → M H Bool
  unfolding add_key
  add_keys [] = pure true
  add_keys (k ∷ keys) = add_key k.m_key (add_keys keys)
