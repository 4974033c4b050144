-- ===== src/Netmgr/Laws.antt =====
-- What netcfgd relies on in NetworkManager, and what the writes of a profile do under it.
use nf_sdk.Base.{
  Bool, true, false, codes, Option, none, some, List, [], ◌∷◌, ◌++◌, Text, text_eq, lookup, insert,
  remove, map, All, ◌≡◌, refl, arith, Bool-cases, inl, inr, ap, ◌∙◌, ◌⊎◌,
}
use nf_sdk.Netmgr.Dictionary.{Settings, sanitize, str}
use nf_sdk.Netmgr.Bus.{Bus, ok}
use nf_sdk.Netmgr.Profiles.{
  is_owned, find_owned, first_owned, update, after_update, activate_on, activated,
}
use nf_sdk.Netmgr.Owned.{
  Profile, owned_in, owned_in-All, owned_in-owned, owned_in-insert, owned_in-insert_other,
}
use nf_sdk.Netmgr.Identity.{is_owned-one}

-- The saved profiles, each under a path of its own, as they read: a profile that was written as `s`
-- reads as `shown s`, without its secrets and in NetworkManager's own form, under the same name and
-- for the same interface. A call that succeeds replaces, deletes or adds one profile, a call that
-- fails none, and an activation changes none.
pub record IsBus {W : Type 0} (bus : Bus W) : Type 0 where
  pub profiles : W → List Profile
  pub shown : Settings → Settings
  pub shown_id :
      (s : Settings)
      → str (shown s) (codes "connection") (codes "id") ≡ str s (codes "connection") (codes "id")
  pub shown_interface :
      (s : Settings)
      → str (shown s) (codes "connection") (codes "interface-name")
        ≡ str s (codes "connection") (codes "interface-name")
  pub single : (w : W) → All (λ (e : Profile). lookup e.0 (profiles w) ≡ some e.1) (profiles w)
  pub updated :
      (p : Text) (s : Settings) (w : W)
      → (bus.update_profile p s w).0 ≡ true
      → profiles (bus.update_profile p s w).1 ≡ insert p (shown s) (profiles w)
  pub not_updated :
      (p : Text) (s : Settings) (w : W)
      → (bus.update_profile p s w).0 ≡ false
      → profiles (bus.update_profile p s w).1 ≡ profiles w
  pub deleted :
      (p : Text) (w : W)
      → (bus.delete_profile p w).0 ≡ true
      → profiles (bus.delete_profile p w).1 ≡ remove p (profiles w)
  pub added :
      (s : Settings) (w : W) (p : Text)
      → (bus.add_profile s w).0 ≡ some p
      → (xs : List Profile) × (ys : List Profile) × ((profiles w ≡ xs ++ ys)
          × (profiles (bus.add_profile s w).1 ≡ xs ++ ((p, shown s) ∷ ys))
          × (lookup p (xs ++ ys) ≡ none))
  pub not_added :
      (s : Settings) (w : W)
      → (bus.add_profile s w).0 ≡ none
      → profiles (bus.add_profile s w).1 ≡ profiles w
  pub activated : (p d : Text) (w : W) → profiles (bus.activate p d w).1 ≡ profiles w

-- The other interfaces have the profiles that they had.
abbrev pub IsSameElsewhere : Text → List Profile → List Profile → Type 0
IsSameElsewhere j m n = (k : Text) → text_eq j k ≡ false → owned_in k n ≡ owned_in k m

module _ {W : Type 0} (bus : Bus W) (law : IsBus bus) where
  -- At this time no read fails: the paths are listed, and each profile is read.
  pub record IsReadable (w : W) : Type 0 where
    pub listed : bus.list_connections w ≡ some (map (λ (e : Profile). e.0) (law.profiles w))
    pub read : All (λ (e : Profile). bus.get_settings e.0 w ≡ some e.1) (law.profiles w)

  pub shown-owned : (j : Text) (s : Settings) → is_owned j (law.shown s) ≡ is_owned j s
  unfolding is_owned
  shown-owned j s = rw (law.shown_id s, law.shown_interface s) refl

  first_owned-owned_in :
      (j : Text) (w : W) (m : List Profile)
      → All (λ (e : Profile). bus.get_settings e.0 w ≡ some e.1) m
      → first_owned bus j w (map (λ (e : Profile). e.0) m) ≡ owned_in j m
  unfolding first_owned owned_in
  first_owned-owned_in j w [] h = refl
  first_owned-owned_in j w ((p, s) ∷ m) h = rw (h.0, first_owned-owned_in j w m h.1)

  pub find_owned-owned_in :
      (j : Text) (w : W) → IsReadable w → find_owned bus j w ≡ owned_in j (law.profiles w)
  unfolding find_owned
  find_owned-owned_in j w readable =
      rw readable.listed (first_owned-owned_in j w (law.profiles w) readable.read)

  activate_on-profiles :
      (p : Text) (d : Option Text) (w : W) → law.profiles (activate_on bus p d w).1 ≡ law.profiles w
  unfolding activate_on activated
  activate_on-profiles p none w = refl
  activate_on-profiles p (some d) w =
      rw (activated_state (bus.activate p d w)) (law.activated p d w)
    where
      activated_state : (x : Bool × W) → (activated bus x).1 ≡ x.1
      activated_state (true, w) = refl
      activated_state (false, w) = refl

  after_update-profiles :
      (j p : Text) (x : Bool × W) → law.profiles (after_update bus j p x).1 ≡ law.profiles x.1
  unfolding after_update
  after_update-profiles j p (true, w) = activate_on-profiles p (bus.find_device j w) w
  after_update-profiles j p (false, w) = refl

  after_update-ok : (j p : Text) (x : Bool × W) → (after_update bus j p x).0 ≡ ok tt → x.0 ≡ true
  unfolding after_update
  after_update-ok j p (true, w) h = refl
  after_update-ok j p (false, w) h = ground arith

  pub update-replaces :
      (j p : Text) (s : Settings) (w : W)
      → (update bus j p s w).0 ≡ ok tt
      → law.profiles (update bus j p s w).1 ≡ insert p (law.shown (sanitize s)) (law.profiles w)
  unfolding update
  update-replaces j p s w h =
      let x = bus.update_profile p (sanitize s) w in
      after_update-profiles j p x ∙ law.updated p (sanitize s) w (after_update-ok j p x h)

  pub update-either :
      (j p : Text) (s : Settings) (w : W)
      → (law.profiles (update bus j p s w).1 ≡ law.profiles w)
        ⊎ (law.profiles (update bus j p s w).1 ≡ insert p (law.shown (sanitize s)) (law.profiles w))
  unfolding update
  update-either j p s w =
      let x = bus.update_profile p (sanitize s) w in
      elim (Bool-cases x.0) [
        | inl b ↦ inr (after_update-profiles j p x ∙ law.updated p (sanitize s) w b)
        | inr b ↦ inl (after_update-profiles j p x ∙ law.not_updated p (sanitize s) w b)
      ]

  pub replace-owned :
      (j p : Text) (s t : Settings) (w : W) (n : List Profile)
      → owned_in j (law.profiles w) ≡ some (p, s)
      → is_owned j t ≡ true
      → n ≡ insert p t (law.profiles w)
      → (owned_in j n ≡ some (p, t)) × IsSameElsewhere j (law.profiles w) n
  replace-owned j p s t w n h o e =
      let m = law.profiles w in
      let stored : lookup p m ≡ some s =
        owned_in-All (λ e. lookup e.0 m ≡ some e.1) j (p, s) m (law.single w) h in
      let mine = owned_in-owned j p s m h in
      (
        ap (owned_in j) e ∙ owned_in-insert j p s t m h o,
        λ k apart.
            ap (owned_in k) e
            ∙ owned_in-insert_other k p s t m stored (is_owned-one j k s mine apart)
                (is_owned-one j k t o apart),
      )
