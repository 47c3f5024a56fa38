-- ===== src/Tests/ExportExamples.antt =====
-- The theorems on exported keys at concrete inputs.
use sailfish_crypto_plugins.Common.{ℕ, refl, some, inr}
use sailfish_crypto_plugins.Machine.{Handle}
use sailfish_crypto_plugins.Rnp.Key.{Key}
use sailfish_crypto_plugins.Rnp.Export.{to_crypto_key}
use sailfish_crypto_plugins.Rnp.Export.Described.{exported}
use sailfish_crypto_plugins.Rnp.Export.Exported.{Exports, to_crypto_key-Exports}
use sailfish_crypto_plugins.Rnp.KeyAccess.{key_of_crypto}
use sailfish_crypto_plugins.Rnp.KeyAccess.Stored.{Stored, IsListed, crypto_key-key}
use sailfish_crypto_plugins.Tests.Toy.{toy, toy_world}

abbrev toy_sub : Handle ℕ
toy_sub = record { addr = 4; obj = 1 }

abbrev toy_main : Handle ℕ
toy_main = record { addr = 5; obj = 0 }

abbrev toy_key : Key toy
toy_key = record { m_key = some toy_sub; m_primary = some toy_main }

sub_listed : IsListed {H = toy} 1 0 toy_world
sub_listed = record {
  in_capitals = refl;
  finds = refl;
  is_primary = refl;
  among = inr (refl, refl);
}

to_crypto_key-Exports_example :
    Exports toy_world
      (exported toy 0 "plugin" (some 1) (some 0))
      0
      (to_crypto_key "plugin" toy_key toy_world)
to_crypto_key-Exports_example = to_crypto_key-Exports "plugin" toy_key toy_world

crypto_key-key_example :
    let (e, w') = to_crypto_key "plugin" toy_key toy_world in
    Stored e.collection_name w' (some 1) (key_of_crypto e.collection_name e.name w')
crypto_key-key_example = crypto_key-key "plugin" toy_sub toy_main toy_world sub_listed
