-- ===== src/Web/Reverting.antt =====
-- A change of an address that nobody confirms.
use nf_sdk.Base.{
  ℕ, ◌==◌, true, Option, none, some, List, Text, codes, text_eq, ◌≡◌, refl, arith, Bool-cases, inl,
  inr, [],
}
use nf_sdk.Netmgr.Bus.{Bus, Outcome, ok, err}
use nf_sdk.Netmgr.Profiles.{Snapshot, snapshot, restore}
use nf_sdk.Netmgr.Address.{Parsing, StaticConfig, parse_dns_list}
use nf_sdk.Netmgr.Laws.{IsBus, IsReadable}
use nf_sdk.Netmgr.Undo.{IsUndone}
use nf_sdk.Netmgr.Change.{IsUndoable, addressing-IsUndoable}
use nf_sdk.Web.Pending.{Change, Guard, arm, expire, is_pending}
use nf_sdk.Web.Pending
use nf_sdk.Web.Addressing.{
  Form, Device, Answer, unknown_method, bad_dns, failed, guarded, unguarded, arm_change,
  after_change, set_manual, post_ipv4, run_timer,
}

module _ (parsing : Parsing) {W : Type 0} (bus : Bus W) (law : IsBus bus) (f : Form) where
  -- The timer of the change takes it back.
  abbrev pub IsReverted : Device W → Device W → Type 0
  IsReverted d e =
      (pc : Change Snapshot) × (e.guard.pending ≡ some pc)
      × ((run_timer parsing bus pc e).guard.pending ≡ none)
      × (IsReadable bus law e.world
          → (restore bus pc.snapshot e.world).0 ≡ ok tt
          → IsUndone bus law f.iface (law.profiles d.world)
              (law.profiles (run_timer parsing bus pc e).world))

  -- What each answer says of the device before and after. A change that failed may have been
  -- written, and no timer was set for it.
  abbrev pub IsAnswered : Device W → Answer × Device W → Type 0
  IsAnswered d (guarded, e) = IsReverted d e
  IsAnswered d (unguarded, e) = e.guard ≡ d.guard
  IsAnswered d (failed x, e) =
      (e.guard ≡ d.guard) × IsUndoable bus law parsing f.iface d.world e.world
  IsAnswered d (unknown_method, e) = e ≡ d
  IsAnswered d (bad_dns, e) = e ≡ d

  own : (n : ℕ) → (n == n) ≡ true
  own n = ground arith

  arm_change-IsAnswered :
      (d : Device W) (w : W) (token : Option Text)
      → IsUndoable bus law parsing f.iface d.world w
      → IsAnswered d (
          arm_change parsing bus f
            (snapshot bus f.iface d.world)
            token
            record { guard = d.guard; world = w })
  unfolding arm_change arm run_timer expire is_pending Pending.restore
  arm_change-IsAnswered d w none h = refl
  arm_change-IsAnswered d w (some t) h = (
    _,
    refl,
    rw (own d.guard.next_id) refl,
    λ after done. rw (own d.guard.next_id) (h after done),
  )

  after_change-IsAnswered :
      (d : Device W) (x : Outcome (Unit {0}) × W)
      → IsUndoable bus law parsing f.iface d.world x.1
      → IsAnswered d (after_change parsing bus f (snapshot bus f.iface d.world) d.guard x)
  unfolding after_change
  after_change-IsAnswered d (err e, w) h = (refl, h)
  after_change-IsAnswered d (ok u, w) h = arm_change-IsAnswered d w f.token h

  no_static : StaticConfig
  no_static = record { address = []; netmask = []; gateway = []; dns = []; search = [] }

  set_manual-IsAnswered :
      (d : Device W) (o : Option (List Text))
      → IsReadable bus law d.world
      → IsAnswered d (set_manual parsing bus f (snapshot bus f.iface d.world) o d)
  unfolding set_manual
  set_manual-IsAnswered d none before = refl
  set_manual-IsAnswered d (some dns) before =
      after_change-IsAnswered d _
        (addressing-IsUndoable bus law parsing f.iface _ f.uuid d.world before).1

  -- Under the laws of NetworkManager, where no read fails when the snapshot is taken: a change of an
  -- address that succeeds and for which a token is drawn is pending, and once its timer runs out
  -- nothing is pending and, where no read fails then and the restore reports no error, the interface
  -- has the profile that was read for it before the form, written back, and every other interface has
  -- its own. A change that fails leaves the guard alone, though a restore of the snapshot would still
  -- undo it. Any other form changes nothing.
  pub post_ipv4-IsAnswered :
      (d : Device W) → IsReadable bus law d.world → IsAnswered d (post_ipv4 parsing bus f d)
  unfolding post_ipv4
  post_ipv4-IsAnswered d before = elim (Bool-cases (text_eq f.method (codes "auto"))) [
    | inl a ↦ rw a (
        after_change-IsAnswered d _
          (addressing-IsUndoable bus law parsing f.iface no_static f.uuid d.world before).0)
    | inr n ↦ elim (Bool-cases (text_eq f.method (codes "manual"))) [
      | inl m ↦ rw (n, m) (set_manual-IsAnswered d (parse_dns_list parsing f.dns) before)
      | inr k ↦ rw (n, k) refl
    ]
  ]
