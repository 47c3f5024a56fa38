-- ===== src/Rnp/Export/UserIds.antt =====
-- rnp/rnp.cpp, `Rnp::Key::toCryptoKey`: the user ids that it lists, and the handles that it leaves open.
use sailfish_crypto_plugins.Common.{
  ℕ, zero, suc, ◌+◌, String, ◌≡◌, refl, true, all, Option, List, [], ◌∷◌, ◌++◌, append-nil,
  append_assoc, map, map-append, length, length-append, Bool-cases, if◌then◌else◌, arith, inl, inr,
}
use sailfish_crypto_plugins.Host.{Host, Ret, ok, err}
use sailfish_crypto_plugins.Machine.{World, Resource, handle, buffer, uid_handle, given, given_text}
use sailfish_crypto_plugins.Machine.Ledger.{release_head, is_of_key}
use sailfish_crypto_plugins.Rnp.Key.{is_yes}
use sailfish_crypto_plugins.Rnp.Export.{append_email, visit_uid, visit_uids, counted_uids, user_ids}

abbrev text_at : (H : Host) → Ret String → List String
text_at H (err c) = []
text_at H (ok text) = H.from_utf8 text ∷ []

-- The text of the `i`-th user id, if it is one and not an image.
abbrev email_at : (H : Host) → H.State → Option H.KeyRef → ℕ → Ret H.Uid → List String
email_at H s primary i (err c) = []
email_at H s primary i (ok uid) =
    if is_yes (H.uid_is_user_id uid s) then text_at H (H.key_get_uid_at primary i s) else []

-- Those of the `n` user ids from the `i`-th on.
abbrev emails_at : (H : Host) → H.State → Option H.KeyRef → ℕ → ℕ → List String
emails_at H s primary zero i = []
emails_at H s primary (suc n) i =
    email_at H s primary i (H.key_get_uid_handle_at primary i s) ++ emails_at H s primary n (i + 1)

abbrev given_count : {A : Type 0} → Ret A → ℕ
given_count (err c) = 0
given_count (ok a) = 1

-- How many of them librnp hands out.
abbrev handles_at : (H : Host) → H.State → Option H.KeyRef → ℕ → ℕ → ℕ
handles_at H s primary zero i = 0
handles_at H s primary (suc n) i =
    given_count (H.key_get_uid_handle_at primary i s) + handles_at H s primary n (i + 1)

-- The same, for all the user ids that librnp counts.
abbrev all_emails : (H : Host) → H.State → Option H.KeyRef → Ret ℕ → List String
all_emails H s primary (err c) = []
all_emails H s primary (ok n) = emails_at H s primary n 0

abbrev all_handles : (H : Host) → H.State → Option H.KeyRef → Ret ℕ → ℕ
all_handles H s primary (err c) = 0
all_handles H s primary (ok n) = handles_at H s primary n 0

abbrev pub user_ids_at : (H : Host) → H.State → Option H.KeyRef → List String
user_ids_at H s primary = all_emails H s primary (H.key_get_uid_count primary s)

abbrev pub open_uids_at : (H : Host) → H.State → Option H.KeyRef → ℕ
open_uids_at H s primary = all_handles H s primary (H.key_get_uid_count primary s)

-- The handles of user ids with the addresses.
abbrev pub uids : List ℕ → List Resource
uids addrs = map (handle uid_handle) addrs

pub all-uids : (addrs : List ℕ) → all is_of_key (uids addrs) ≡ true
all-uids [] = refl
all-uids (a ∷ addrs) = all-uids addrs

module _ {H : Host} where
  -- What an action on `w` gave is the list, and it leaves `n` handles of user ids open.
  pub record Lists (w : World H) (v : List String) (n : ℕ) (out : List String × World H)
      : Type 0 where
    pub addrs : List ℕ
    pub next : ℕ
    pub run : out ≡ (v, record w { next = next; live = uids addrs ++ w.live })
    pub counted : length addrs ≡ n

  append_email_lem :
      (emails : List String) (r : Ret String) (w : World H)
      → let (g, w') = given_text r w in append_email emails g w' ≡ (emails ++ text_at H r, w)
  unfolding append_email
  append_email_lem emails (ok text) w = rw (release_head (buffer text) w) refl
  append_email_lem emails (err c) w = rw (append-nil emails) refl

  visit_uid-Lists :
      (primary : Option H.KeyRef) (i : ℕ) (emails : List String) (r : Ret H.Uid) (w : World H)
      → let (g, w') = given uid_handle r w in
        Lists w
          (emails ++ email_at H w.ffi primary i r)
          (given_count r)
          (visit_uid primary i emails g w')
  unfolding visit_uid
  visit_uid-Lists primary i emails (err c) w = record {
    addrs = [];
    next = w.next;
    run = rw (append-nil emails) refl;
    counted = refl;
  }
  visit_uid-Lists primary i emails (ok uid) w =
      let w1 = record w { next = suc w.next; live = handle uid_handle w.next ∷ w.live } in
      record {
        addrs = w.next ∷ [];
        next = suc w.next;
        run = elim (Bool-cases (is_yes (H.uid_is_user_id uid w.ffi))) [
          | inl e ↦ rw e (append_email_lem emails (H.key_get_uid_at primary i w.ffi) w1)
          | inr e ↦ rw e (rw (append-nil emails) refl)
        ];
        counted = refl;
      }

  visit_uids-Lists :
      (primary : Option H.KeyRef) (n i : ℕ) (emails : List String) (w : World H)
      → Lists w
          (emails ++ emails_at H w.ffi primary n i)
          (handles_at H w.ffi primary n i)
          (visit_uids primary n i emails w)
  unfolding visit_uids
  visit_uids-Lists primary zero i emails w = record {
    addrs = [];
    next = w.next;
    run = rw (append-nil emails) refl;
    counted = refl;
  }
  visit_uids-Lists primary (suc n) i emails w =
      let r = H.key_get_uid_handle_at primary i w.ffi in
      let here = visit_uid-Lists primary i emails r w in
      let w1 = record w { next = here.next; live = uids here.addrs ++ w.live } in
      let later = visit_uids-Lists primary n (i + 1) (emails ++ email_at H w.ffi primary i r) w1 in
      record {
        addrs = later.addrs ++ here.addrs;
        next = later.next;
        run = rw here.run (
            rw later.run (
              rw
                (append_assoc emails (email_at H w.ffi primary i r)
                  (emails_at H w.ffi primary n (i + 1)))
                (rw (map-append (handle uid_handle) later.addrs here.addrs)
                  (rw (append_assoc (uids later.addrs) (uids here.addrs) w.live) refl))));
        counted = omega (arith, length-append later.addrs here.addrs, here.counted, later.counted);
      }

  counted_uids-Lists :
      (primary : Option H.KeyRef) (r : Ret ℕ) (w : World H)
      → Lists w
          (all_emails H w.ffi primary r)
          (all_handles H w.ffi primary r)
          (counted_uids primary r w)
  unfolding counted_uids
  counted_uids-Lists primary (err c) w = record {
    addrs = [];
    next = w.next;
    run = refl;
    counted = refl;
  }
  counted_uids-Lists primary (ok n) w = visit_uids-Lists primary n 0 [] w

  pub user_ids-Lists :
      (primary : Option H.KeyRef) (w : World H)
      → Lists w (user_ids_at H w.ffi primary) (open_uids_at H w.ffi primary) (user_ids primary w)
  unfolding user_ids
  user_ids-Lists primary w = counted_uids-Lists primary (H.key_get_uid_count primary w.ffi) w
