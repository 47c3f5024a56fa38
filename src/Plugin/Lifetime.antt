-- ===== src/Plugin/Lifetime.antt =====
-- secrets/rnp/plugin.cpp: the plugin from its constructor over any calls of its two interfaces to its
-- destructor.
use sailfish_crypto_plugins.Common.{
  ◌≡◌, ◌⊎◌, ◌∙◌, refl, ap, true, if◌then◌else◌, Option, none, some, inl, inr, List, any, Bool-cases,
}
use sailfish_crypto_plugins.Host.{Host, Ret, ok, err}
use sailfish_crypto_plugins.Machine.{Rnp, Keyring, Level, public, secret, gpg_compat}
use sailfish_crypto_plugins.Rnp.Ring.{new_rnp, key_path}
use sailfish_crypto_plugins.Rnp.Ring.Laws.{closed, save_to, unloaded, destruct_lem}
use sailfish_crypto_plugins.Rnp.Ring.Sound.{
  only_unloaded, closed_secret, closed_public, IsSound, construct-IsSound,
}
use sailfish_crypto_plugins.Plugin.{new_plugin, delete_plugin}
use sailfish_crypto_plugins.Plugin.Calls.{PluginCall, run_calls, may_remove}
use sailfish_crypto_plugins.Plugin.Calls.Sound.{run_calls-IsSound}

-- After any calls of a new plugin, through either of its interfaces and in any order, nothing was
-- given back to librnp that was not open, what is open are handles of keys and of user ids and
-- nothing else, the paths are those of the constructor, each ring that is open is of its own half of
-- the keys, the secret one is not modified, and the public one only if one of the calls removes.
pub new_plugin-IsSound :
    (H : Host) (s : H.State) (cs : List PluginCall)
    → IsSound (any may_remove cs) (run_calls cs (new_plugin H s)).1
unfolding new_plugin
new_plugin-IsSound H s cs =
    run_calls-IsSound cs (new_plugin H s)
      (elim (Bool-cases (any may_remove cs)) [ inl e ↦ inr e | inr e ↦ inl e ])
      (construct-IsSound H s)

-- The members that the destructor of a ring reads.
abbrev no_rings : Rnp → Rnp
no_rings r = record r { public_keyring = none; secret_keyring = none }

key_path-no_rings : (r : Rnp) (level : Level) → key_path r level ≡ key_path (no_rings r) level
key_path-no_rings r public = refl
key_path-no_rings r secret = refl

save_to-no_rings :
    (H : Host) (r : Rnp) (k : Keyring) (q : Ret H.Output × H.State)
    → save_to H r k q ≡ save_to H (no_rings r) k q
save_to-no_rings H r k (ok o, s) = refl
save_to-no_rings H r k (err c, s) = refl

closed-no_rings :
    (H : Host) (r : Rnp) (p : Option Keyring) (s : H.State)
    → closed H r p s ≡ closed H (no_rings r) p s
closed-no_rings H r none s = refl
closed-no_rings H r (some k) s =
    ap
      (λ path.
        unloaded H k
          (if k.modified then save_to H r k (H.output_to_path (H.to_utf8 path) s) else s))
      (key_path-no_rings r k.level)
    ∙ ap (λ t. unloaded H k (if k.modified then t else s))
        (save_to-no_rings H r k (H.output_to_path (H.to_utf8 (key_path (no_rings r) k.level)) s))

-- Whatever the calls were, the destruction of the plugin closes the public ring, with the paths of the
-- constructor, then unloads the secret one if it is open and valid, and ends librnp: the secret keys
-- are never saved. If none of the calls removes, then the public ring is not saved either, and closing
-- it is unloading it.
pub delete_plugin-run_calls :
    (H : Host) (s : H.State) (cs : List PluginCall)
    → let w = (run_calls cs (new_plugin H s)).1 in
      let public_closed = closed H (new_rnp H gpg_compat) w.rnp.public_keyring w.ffi in
      (delete_plugin w ≡ H.ffi_destroy (only_unloaded H w.rnp.secret_keyring public_closed))
      × ((any may_remove cs ≡ true) ⊎ (public_closed ≡ only_unloaded H w.rnp.public_keyring w.ffi))
unfolding delete_plugin
delete_plugin-run_calls H s cs =
    let w = (run_calls cs (new_plugin H s)).1 in
    let rings = (new_plugin-IsSound H s cs).rings in
    let same =
      closed-no_rings H w.rnp w.rnp.public_keyring w.ffi
      ∙ ap (λ r. closed H r w.rnp.public_keyring w.ffi) rings.members in
    (
      destruct_lem w
          ∙ ap H.ffi_destroy (
              closed_secret H w.rnp w.rnp.secret_keyring (closed H w.rnp w.rnp.public_keyring w.ffi)
                rings.secret_ring
              ∙ ap (λ t. only_unloaded H w.rnp.secret_keyring t) same),
      closed_public H (new_rnp H gpg_compat) (any may_remove cs) w.rnp.public_keyring w.ffi
          rings.public_ring,
    )
