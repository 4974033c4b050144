-- ===== src/Netmgr/Change.antt =====
-- A change of the addressing, and the rollback after it.
use nf_sdk.Base.{ℕ, true, Option, none, some, Text, ◌≡◌, refl, inl, inr, ap, subst, ◌∙◌, sym, ◌⊎◌}
use nf_sdk.Netmgr.Dictionary.{Settings, sanitize}
use nf_sdk.Netmgr.Bus.{Bus, ok, Failure}
use nf_sdk.Netmgr.Profiles.{
  is_owned, new_profile, snapshot, restore, ensure_owned, ensure_from, create_on, create_typed,
  added,
}
use nf_sdk.Netmgr.Seeding.{conn_type}
use nf_sdk.Netmgr.Owned.{Profile, owned_in, owned_in-owned}
use nf_sdk.Netmgr.Identity.{
  is_owned-same, connection_of, connection-dhcp, connection-static, new_profile-owned,
}
use nf_sdk.Netmgr.Laws.{IsBus, IsReadable, find_owned-owned_in}
use nf_sdk.Netmgr.Undo.{
  IsUndone, IsFresh, update-Holds, update-IsFresh, added-IsFresh, written-owned, restored-IsUndone,
  deleted-IsUndone, untouched-IsUndone,
}
use nf_sdk.Netmgr.Address.{
  Parsing, StaticConfig, write_owned, change_owned, dhcp_settings, static_settings, set_dhcp,
  set_static, set_checked, set_valid, validate, netmask_to_prefix,
}

module _ {W : Type 0} (bus : Bus W) (law : IsBus bus) (parsing : Parsing) (j : Text) where
  module _ (change : Settings → Settings)
      (keeps : (s : Settings) → connection_of (change s) ≡ connection_of s) where
    changed-owned :
        (s : Settings) → is_owned j s ≡ true → is_owned j (law.shown (sanitize (change s))) ≡ true
    changed-owned s h =
        written-owned bus law j (change s) (is_owned-same j (change s) s (keeps s) ∙ h)

    abbrev Touched : W → W → Type 0
    Touched w0 w =
        (law.profiles w ≡ law.profiles w0) ⊎ ((p : Text) × IsFresh bus law j p (law.profiles w0) w)

    added-Touched :
        (s : Settings) (w0 : W) (x : Option Text × W)
        → bus.add_profile s w0 ≡ x
        → owned_in j (law.profiles w0) ≡ none
        → is_owned j s ≡ true
        → Touched w0 (write_owned parsing bus change j (added bus s x)).1
    unfolding write_owned added
    added-Touched s w0 (none, w) e h o =
        inl (ap (λ x. law.profiles x.1) (sym e) ∙ law.not_added s w0 (ap (λ x. x.0) e))
    added-Touched s w0 (some p, w) e h o = inr (
      p,
      update-IsFresh bus law j p (change s) w (law.profiles w0)
          (subst (λ x. IsFresh bus law j p (law.profiles w0) x.1) e
            (added-IsFresh bus law j s w0 p h o (ap (λ x. x.0) e)))
          (changed-owned s o),
    )

    typed-Touched :
        (uuid : Option Text) (dev : Text) (ctype : Option Text) (w0 : W)
        → owned_in j (law.profiles w0) ≡ none
        → Touched w0 (write_owned parsing bus change j (create_typed bus j uuid dev ctype w0)).1
    unfolding create_typed write_owned
    typed-Touched uuid dev none w0 h = inl refl
    typed-Touched none dev (some c) w0 h = inl refl
    typed-Touched (some u) dev (some c) w0 h =
        let s = new_profile bus j u dev c w0 in
        added-Touched s w0 (bus.add_profile s w0) refl h (new_profile-owned bus j u dev c w0)

    created-Touched :
        (uuid dev : Option Text) (w0 : W)
        → owned_in j (law.profiles w0) ≡ none
        → Touched w0 (write_owned parsing bus change j (create_on bus j uuid dev w0)).1
    unfolding create_on write_owned
    created-Touched uuid none w0 h = inl refl
    created-Touched uuid (some dev) w0 h =
        typed-Touched uuid dev (conn_type (bus.device_type dev w0)) w0 h

    abbrev Undoes : W → W → Type 0
    Undoes w0 w =
        IsReadable bus law w
        → (restore bus (snapshot bus j w0) w).0 ≡ ok tt
        → IsUndone bus law j (law.profiles w0) (law.profiles (restore bus (snapshot bus j w0) w).1)

    Touched-Undoes :
        (w0 w : W)
        → IsReadable bus law w0
        → owned_in j (law.profiles w0) ≡ none
        → Touched w0 w
        → Undoes w0 w
    Touched-Undoes w0 w before h (inl e) after done =
        untouched-IsUndone bus law j w0 w before after h e
    Touched-Undoes w0 w before h (inr (p, f)) after done =
        deleted-IsUndone bus law j p w0 w before after h f done

    written-Undoes :
        (uuid : Option Text) (w0 : W) (o : Option Profile)
        → IsReadable bus law w0
        → owned_in j (law.profiles w0) ≡ o
        → Undoes w0 (write_owned parsing bus change j (ensure_from bus j uuid o w0)).1
    unfolding ensure_from write_owned
    written-Undoes uuid w0 none before h after =
        Touched-Undoes w0 _ before h (created-Touched uuid (bus.find_device j w0) w0 h) after
    written-Undoes uuid w0 (some (p, s)) before h after =
        restored-IsUndone bus law j p s w0 _ before after h (
          update-Holds bus law j p s (change s) w0 (law.profiles w0) h (λ k apart. refl)
            (changed-owned s (owned_in-owned j p s (law.profiles w0) h)))

    change_owned-Undoes :
        (uuid : Option Text) (w0 : W)
        → IsReadable bus law w0
        → Undoes w0 (change_owned parsing bus change j uuid w0).1
    unfolding change_owned ensure_owned
    change_owned-Undoes uuid w0 before =
        rw (find_owned-owned_in bus law j w0 before)
          (written-Undoes uuid w0 (owned_in j (law.profiles w0)) before refl)

  -- A restore of the snapshot taken at `w0` undoes what was done up to `w`, where no read fails at
  -- that time and the restore reports no error.
  abbrev pub IsUndoable : W → W → Type 0
  IsUndoable w0 w =
      IsReadable bus law w
      → (restore bus (snapshot bus j w0) w).0 ≡ ok tt
      → IsUndone bus law j (law.profiles w0) (law.profiles (restore bus (snapshot bus j w0) w).1)

  untouched-IsUndoable : (w0 : W) → IsReadable bus law w0 → IsUndoable w0 w0
  untouched-IsUndoable w0 before = unwritten w0 (owned_in j (law.profiles w0)) before refl
    where
      unwritten :
          (w0 : W) (o : Option Profile)
          → IsReadable bus law w0
          → owned_in j (law.profiles w0) ≡ o
          → IsUndoable w0 w0
      unwritten w0 none before h after done = untouched-IsUndone bus law j w0 w0 before after h refl
      unwritten w0 (some (p, s)) before h after done =
          restored-IsUndone bus law j p s w0 w0 before after h (s, h, λ k apart. refl) done

  set_dhcp-IsUndoable :
      (uuid : Option Text) (w0 : W)
      → IsReadable bus law w0
      → IsUndoable w0 (set_dhcp parsing bus j uuid w0).1
  unfolding set_dhcp
  set_dhcp-IsUndoable uuid w0 before =
      change_owned-Undoes (dhcp_settings parsing) (connection-dhcp parsing) uuid w0 before

  set_valid-IsUndoable :
      (c : StaticConfig) (prefix : Option ℕ) (uuid : Option Text) (w0 : W)
      → IsReadable bus law w0
      → IsUndoable w0 (set_valid parsing bus j c prefix uuid w0).1
  unfolding set_valid
  set_valid-IsUndoable c none uuid w0 before = untouched-IsUndoable w0 before
  set_valid-IsUndoable c (some prefix) uuid w0 before =
      change_owned-Undoes (static_settings parsing c prefix) (connection-static parsing c prefix)
        uuid w0 before

  set_checked-IsUndoable :
      (c : StaticConfig) (e : Option Failure) (uuid : Option Text) (w0 : W)
      → IsReadable bus law w0
      → IsUndoable w0 (set_checked parsing bus j c e uuid w0).1
  unfolding set_checked
  set_checked-IsUndoable c (some e) uuid w0 before = untouched-IsUndoable w0 before
  set_checked-IsUndoable c none uuid w0 before =
      set_valid-IsUndoable c (netmask_to_prefix parsing c.netmask) uuid w0 before

  -- Under the laws of NetworkManager, where no read fails when the snapshot is taken and none when it
  -- is restored: after automatic or static addressing was set, with whatever outcome, a restore of the
  -- snapshot, where it reports no error, gives the interface the profile that was read for it, written
  -- back, so without the secrets that a read leaves out, or none where it had none, and every other
  -- interface has the profile that it had.
  pub addressing-IsUndoable :
      (c : StaticConfig) (uuid : Option Text) (w0 : W)
      → IsReadable bus law w0
      → IsUndoable w0 (set_dhcp parsing bus j uuid w0).1
        × IsUndoable w0 (set_static parsing bus j c uuid w0).1
  unfolding set_static
  addressing-IsUndoable c uuid w0 before = (
    set_dhcp-IsUndoable uuid w0 before,
    set_checked-IsUndoable c (validate parsing c) uuid w0 before,
  )
