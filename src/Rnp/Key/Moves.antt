-- ===== src/Rnp/Key/Moves.antt =====
-- rnp/rnp.cpp, the two moves of `Rnp::Key`: what they do to the handles.
use sailfish_crypto_plugins.Common.{ℕ, ◌≡◌, ◌++◌}
use sailfish_crypto_plugins.Host.{Host}
use sailfish_crypto_plugins.Machine.{World, release_ptr, ◌>>◌}
use sailfish_crypto_plugins.Rnp.Key.{Key, null_key, destroy}
use sailfish_crypto_plugins.Rnp.Key.Handles.{own, leaked, destroy-Loads}

-- Rnp::Key::Key(Rnp::Key &&other): the new key, and what is left of the other.
move_key : {H : Host} → Key H → Key H × Key H
move_key other = (record { m_key = other.m_key; m_primary = other.m_primary }, null_key)

-- Rnp::Key::operator=(Rnp::Key &&other), for another object: the same, and what the key held before
-- is forgotten.
move_assign : {H : Host} → Key H → Key H → Key H × Key H
move_assign key other = (record key { m_key = other.m_key; m_primary = other.m_primary }, null_key)

module _ {H : Host} where
  -- The destructors of a loaded key and of what it was moved to give back its handle once.
  destroy-move_key :
      (k : Key H) (w : World H) (n : ℕ)
      → let (moved, rest) = move_key k in
        (destroy rest >> destroy moved)
          (record w { next = n; live = leaked k ++ (own k.m_key ++ w.live) })
        ≡ (tt, record w { next = n; live = leaked k ++ w.live })
  unfolding move_key destroy release_ptr
  destroy-move_key k w n = destroy-Loads k w n

  -- The same for an assignment to a null key; that of any other key would leave its handle open.
  destroy-move_assign :
      (k : Key H) (w : World H) (n : ℕ)
      → let (moved, rest) = move_assign null_key k in
        (destroy rest >> destroy moved)
          (record w { next = n; live = leaked k ++ (own k.m_key ++ w.live) })
        ≡ (tt, record w { next = n; live = leaked k ++ w.live })
  unfolding move_assign destroy release_ptr
  destroy-move_assign k w n = destroy-Loads k w n
