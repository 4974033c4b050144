-- ===== src/Netmgr/Undo.antt =====
-- Restoring a snapshot undoes a change of the addressing, whatever became of the change.
use nf_sdk.Base.{
  Bool, true, false, Option, none, some, List, Text, remove, ◌≡◌, refl, arith, inl, inr, ap, subst,
  ◌∙◌, sym,
}
use nf_sdk.Netmgr.Dictionary.{Settings, sanitize}
use nf_sdk.Netmgr.Bus.{Bus, ok}
use nf_sdk.Netmgr.Profiles.{
  is_owned, update, snapshot, restore, restore_over, after_delete, fall_back, settings_of,
}
use nf_sdk.Netmgr.Owned.{
  Profile, owned_in, owned_in-owned, owned_in-insert, owned_in-added, remove-insert, remove-added,
}
use nf_sdk.Netmgr.Identity.{is_owned-same, connection-sanitize}
use nf_sdk.Netmgr.Laws.{
  IsBus, IsReadable, shown-owned, find_owned-owned_in, update-replaces, update-either,
  IsSameElsewhere, replace-owned,
}

module _ {W : Type 0} (bus : Bus W) (law : IsBus bus) (j : Text) where
  -- A profile that was read, once it is written back and read again.
  abbrev pub rewritten : Option Profile → Option Profile
  rewritten none = none
  rewritten (some (p, s)) = some (p, law.shown (sanitize s))

  -- The interface has its profile back, as far as it was read, and no other interface lost its own.
  abbrev pub IsUndone : List Profile → List Profile → Type 0
  IsUndone m n = (owned_in j n ≡ rewritten (owned_in j m)) × IsSameElsewhere j m n

  -- A world in which the interface has a profile under this path.
  abbrev pub Holds : Text → List Profile → W → Type 0
  Holds p m w =
      (s : Settings) × (owned_in j (law.profiles w) ≡ some (p, s))
      × IsSameElsewhere j m (law.profiles w)

  pub update-Holds :
      (p : Text) (s t : Settings) (w : W) (m : List Profile)
      → owned_in j (law.profiles w) ≡ some (p, s)
      → IsSameElsewhere j m (law.profiles w)
      → is_owned j (law.shown (sanitize t)) ≡ true
      → Holds p m (update bus j p t w).1
  update-Holds p s t w m h e o = elim (update-either bus law j p t w) [
    | inl same ↦ (s, ap (owned_in j) same ∙ h, λ k apart. ap (owned_in k) same ∙ e k apart)
    | inr new ↦
        let r =
          replace-owned bus law j p s (law.shown (sanitize t)) w
            (law.profiles (update bus j p t w).1) h o new in
        (law.shown (sanitize t), r.0, λ k apart. r.1 k apart ∙ e k apart)
  ]

  pub written-owned :
      (s : Settings) → is_owned j s ≡ true → is_owned j (law.shown (sanitize s)) ≡ true
  written-owned s h =
      shown-owned bus law j (sanitize s)
      ∙ is_owned-same j (sanitize s) s (connection-sanitize s)
      ∙ h

  restore-owned :
      (w0 w : W) (o q : Option Profile)
      → IsReadable bus law w0
      → IsReadable bus law w
      → owned_in j (law.profiles w0) ≡ o
      → owned_in j (law.profiles w) ≡ q
      → restore bus (snapshot bus j w0) w ≡ restore_over bus j (settings_of o) q w
  unfolding restore snapshot
  restore-owned w0 w o q before after h k =
      rw (find_owned-owned_in bus law j w0 before, find_owned-owned_in bus law j w after, h, k)

  -- Where there was a profile, it is written back.
  written_back :
      (p : Text) (s : Settings) (w0 w : W)
      → owned_in j (law.profiles w0) ≡ some (p, s)
      → Holds p (law.profiles w0) w
      → (update bus j p s w).0 ≡ ok tt
      → IsUndone (law.profiles w0) (law.profiles (update bus j p s w).1)
  written_back p s w0 w h (t, held, e) done =
      let own = written-owned s (owned_in-owned j p s (law.profiles w0) h) in
      let r =
        replace-owned bus law j p t (law.shown (sanitize s)) w (law.profiles (update bus j p s w).1)
          held own (update-replaces bus law j p s w done) in
      (r.0 ∙ ap rewritten (sym h), λ k apart. r.1 k apart ∙ e k apart)

  pub restored-IsUndone :
      (p : Text) (s : Settings) (w0 w : W)
      → IsReadable bus law w0
      → IsReadable bus law w
      → owned_in j (law.profiles w0) ≡ some (p, s)
      → Holds p (law.profiles w0) w
      → (restore bus (snapshot bus j w0) w).0 ≡ ok tt
      → IsUndone (law.profiles w0) (law.profiles (restore bus (snapshot bus j w0) w).1)
  unfolding restore_over
  restored-IsUndone p s w0 w before after h held done =
      let same = restore-owned w0 w (some (p, s)) (some (p, held.0)) before after h held.1 in
      subst (λ x. IsUndone (law.profiles w0) (law.profiles x.1)) (sym same)
        (written_back p s w0 w h held (subst (λ x. x.0 ≡ ok tt) same done))

  -- A world in which the interface has a profile that was added to these.
  abbrev pub IsFresh : Text → List Profile → W → Type 0
  IsFresh p m w =
      (s : Settings) × (owned_in j (law.profiles w) ≡ some (p, s)) × (remove p (law.profiles w) ≡ m)

  pub update-IsFresh :
      (p : Text) (t : Settings) (w : W) (m : List Profile)
      → IsFresh p m w
      → is_owned j (law.shown (sanitize t)) ≡ true
      → IsFresh p m (update bus j p t w).1
  update-IsFresh p t w m (s, h, e) o = elim (update-either bus law j p t w) [
    | inl same ↦ (s, ap (owned_in j) same ∙ h, ap (remove p) same ∙ e)
    | inr new ↦ (
      law.shown (sanitize t),
      ap (owned_in j) new ∙ owned_in-insert j p s (law.shown (sanitize t)) (law.profiles w) h o,
      ap (remove p) new ∙ remove-insert p (law.shown (sanitize t)) (law.profiles w) ∙ e,
    )
  ]

  pub added-IsFresh :
      (s : Settings) (w : W) (p : Text)
      → owned_in j (law.profiles w) ≡ none
      → is_owned j s ≡ true
      → (bus.add_profile s w).0 ≡ some p
      → IsFresh p (law.profiles w) (bus.add_profile s w).1
  added-IsFresh s w p h o e =
      let (xs, ys, (before, after, new)) = law.added s w p e in
      let own = shown-owned bus law j s ∙ o in
      (
        law.shown s,
        ap (owned_in j) after
            ∙ owned_in-added j p (law.shown s) xs ys (ap (owned_in j) (sym before) ∙ h) own,
        ap (remove p) after ∙ remove-added p (law.shown s) xs ys new ∙ sym before,
      )

  after_delete-ok : (x : Bool × W) → (after_delete bus j x).0 ≡ ok tt → x.0 ≡ true
  unfolding after_delete
  after_delete-ok (true, w) h = refl
  after_delete-ok (false, w) h = ground arith

  fall_back-profiles :
      (d : Option Text) (w : W) → law.profiles (fall_back bus d w).1 ≡ law.profiles w
  unfolding fall_back
  fall_back-profiles none w = refl
  fall_back-profiles (some d) w = law.activated _ d w

  after_delete-profiles : (x : Bool × W) → law.profiles (after_delete bus j x).1 ≡ law.profiles x.1
  unfolding after_delete
  after_delete-profiles (true, w) = fall_back-profiles (bus.find_device j w) w
  after_delete-profiles (false, w) = refl

  same-IsUndone : (m n : List Profile) → owned_in j m ≡ none → n ≡ m → IsUndone m n
  same-IsUndone m n h e =
      (ap (owned_in j) e ∙ h ∙ ap rewritten (sym h), λ k apart. ap (owned_in k) e)

  -- Where there was none, the profile that was added is deleted.
  pub deleted-IsUndone :
      (p : Text) (w0 w : W)
      → IsReadable bus law w0
      → IsReadable bus law w
      → owned_in j (law.profiles w0) ≡ none
      → IsFresh p (law.profiles w0) w
      → (restore bus (snapshot bus j w0) w).0 ≡ ok tt
      → IsUndone (law.profiles w0) (law.profiles (restore bus (snapshot bus j w0) w).1)
  unfolding restore_over
  deleted-IsUndone p w0 w before after h (s, held, e) done =
      let x = bus.delete_profile p w in
      let same = restore-owned w0 w none (some (p, s)) before after h held in
      let gone = law.deleted p w (after_delete-ok x (subst (λ x. x.0 ≡ ok tt) same done)) in
      subst (λ x. IsUndone (law.profiles w0) (law.profiles x.1)) (sym same)
        (same-IsUndone (law.profiles w0) (law.profiles (after_delete bus j x).1) h
          (after_delete-profiles x ∙ gone ∙ e))

  pub untouched-IsUndone :
      (w0 w : W)
      → IsReadable bus law w0
      → IsReadable bus law w
      → owned_in j (law.profiles w0) ≡ none
      → law.profiles w ≡ law.profiles w0
      → IsUndone (law.profiles w0) (law.profiles (restore bus (snapshot bus j w0) w).1)
  unfolding restore_over
  untouched-IsUndone w0 w before after h e =
      let same = restore-owned w0 w none none before after h (ap (owned_in j) e ∙ h) in
      subst (λ x. IsUndone (law.profiles w0) (law.profiles x.1)) (sym same)
        (same-IsUndone (law.profiles w0) (law.profiles w) h e)
