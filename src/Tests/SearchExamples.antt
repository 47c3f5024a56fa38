-- ===== src/Tests/SearchExamples.antt =====
-- The theorem on a search at a concrete input.
use sailfish_crypto_plugins.Common.{refl, []}
use sailfish_crypto_plugins.Keys.Outcome.{succeeded}
use sailfish_crypto_plugins.Keys.Matching.{operator_and}
use sailfish_crypto_plugins.Keys.Search.{find_secrets}
use sailfish_crypto_plugins.Keys.Search.Found.{Leaves, found_in, searched_at, find_secrets-Leaves}
use sailfish_crypto_plugins.Tests.Toy.{toy, toy_world, toy_ring}

find_secrets-Leaves_example :
    Leaves toy_world
      (succeeded, found_in toy 0 operator_and [] (searched_at toy 0 "none"))
      (find_secrets operator_and [] "none" toy_world)
find_secrets-Leaves_example =
    find_secrets-Leaves operator_and [] toy_ring "none" toy_world refl refl
