-- ===== src/Tests/RingExamples.antt =====
-- rnp/rnp.cpp: the theorems on the key rings at concrete inputs.
use sailfish_crypto_plugins.Common.{◌≡◌, true, some}
use sailfish_crypto_plugins.Machine.{World}
use sailfish_crypto_plugins.Rnp.Ring.{destruct}
use sailfish_crypto_plugins.Rnp.Ring.Laws.{destruct_lem}
use sailfish_crypto_plugins.Tests.Toy.{toy, toy_ring, toy_rnp, toy_world}

-- The public ring was modified, the secret one never opened.
abbrev changed_world : World toy
changed_world = record toy_world {
  rnp = record toy_rnp { public_keyring = some (record toy_ring { modified = true }) };
}

-- Two calls save, one unloads, and one ends librnp.
destruct_lem_example : destruct changed_world ≡ 4
destruct_lem_example = destruct_lem changed_world
