-- ===== src/Watchdog/Spacing.antt =====
-- The minimum time between the passes of two calls that change the host's proxy, whatever fails or
-- is interrupted between them.
use nf_sdk.Base.{ℕ, ◌+◌, ◌≤◌, ◌<◌, ◌≡◌, Bool, true, false, Option, none, some, List, [], ◌∷◌}
use nf_sdk.Store.State.{State, Intent, Action, set, clear}
use nf_sdk.Watchdog.World.{Event, saved, set_called, clear_called, reboot_called, noted}
use nf_sdk.Watchdog.Triple.{IsSteady}

-- When the pass began that last asked the Supervisor to change the proxy.
abbrev pub last_call : List Event → Option ℕ
last_call [] = none
last_call (set_called t p ∷ es) = some t
last_call (clear_called t ∷ es) = some t
last_call (saved b st ∷ es) = last_call es
last_call (reboot_called ∷ es) = last_call es
last_call (noted l n ∷ es) = last_call es

-- The state on disk, which was `first` before the trace began.
abbrev pub disk_of : State → List Event → State
disk_of first [] = first
disk_of first (saved true st ∷ es) = st
disk_of first (saved false st ∷ es) = disk_of first es
disk_of first (set_called t p ∷ es) = disk_of first es
disk_of first (clear_called t ∷ es) = disk_of first es
disk_of first (reboot_called ∷ es) = disk_of first es
disk_of first (noted l n ∷ es) = disk_of first es

abbrev pub Spaced : ℕ → Option ℕ → ℕ → Type 0
Spaced d none t = Unit
Spaced d (some u) t = u + d ≤ t

-- The pass of each call began at least `d` after the pass of the call before it.
abbrev pub IsSpaced : ℕ → List Event → Type 0
IsSpaced d [] = Unit
IsSpaced d (set_called t p ∷ es) = Spaced d (last_call es) t × IsSpaced d es
IsSpaced d (clear_called t ∷ es) = Spaced d (last_call es) t × IsSpaced d es
IsSpaced d (saved b st ∷ es) = IsSpaced d es
IsSpaced d (reboot_called ∷ es) = IsSpaced d es
IsSpaced d (noted l n ∷ es) = IsSpaced d es

abbrev pub known_by : Option Intent → ℕ → ℕ
known_by none last = last
known_by (some i) last = i.at

abbrev pub Known : Option ℕ → ℕ → Type 0
Known none n = Unit
Known (some t) n = (0 < t) × (t ≤ n)

-- The state knows of a change at least as late as the last call.
abbrev pub Remembers : State → List Event → Type 0
Remembers st es = Known (last_call es) (known_by st.pending st.last_change_at)

-- At each point of the trace the disk knew of the last call.
abbrev pub IsDurable : State → List Event → Type 0
IsDurable first [] = Unit
IsDurable first (e ∷ es) = Remembers (disk_of first (e ∷ es)) (e ∷ es) × IsDurable first es

-- An intent of this action and time.
abbrev pub Announces : Action → ℕ → Option Intent → Type 0
Announces a t none = ⊥
Announces a t (some i) = (i.action ≡ a) × (i.at ≡ t)

-- Before each call the disk held the intent to make it.
abbrev pub IsAnnounced : State → List Event → Type 0
IsAnnounced first [] = Unit
IsAnnounced first (set_called t p ∷ es) =
    Announces set t (disk_of first es).pending × IsAnnounced first es
IsAnnounced first (clear_called t ∷ es) =
    Announces clear t (disk_of first es).pending × IsAnnounced first es
IsAnnounced first (saved b st ∷ es) = IsAnnounced first es
IsAnnounced first (reboot_called ∷ es) = IsAnnounced first es
IsAnnounced first (noted l n ∷ es) = IsAnnounced first es

pub record Inv (d : ℕ) (first st : State) (es : List Event) : Type 0 where
  pub spaced : IsSpaced d es
  pub durable : IsDurable first es
  pub announced : IsAnnounced first es
  pub remembers : Remembers st es

pub disk-Remembers :
    (first : State) (es : List Event) → IsDurable first es → Remembers (disk_of first es) es
disk-Remembers first [] h = tt
disk-Remembers first (e ∷ es) h = h.0

module _ (d : ℕ) (first : State) where
  pub saved-Inv :
      (b : Bool) (s s' : State) (es : List Event)
      → Remembers s' es
      → Inv d first s es
      → Inv d first s' (saved b s' ∷ es)
  saved-Inv true s s' es r h = record {
    spaced = h.spaced;
    durable = (r, h.durable);
    announced = h.announced;
    remembers = r;
  }
  saved-Inv false s s' es r h = record {
    spaced = h.spaced;
    durable = (disk-Remembers first es h.durable, h.durable);
    announced = h.announced;
    remembers = r;
  }

  pub Inv-IsSteady : IsSteady (Inv d first)
  Inv-IsSteady = record {
    noted = λ l n s es h. record {
      spaced = h.spaced;
      durable = (disk-Remembers first es h.durable, h.durable);
      announced = h.announced;
      remembers = h.remembers;
    };
    framed = λ fn f b s es h.
        saved-Inv b s (fn s) es (rw (f.pending s, f.last_change_at s) h.remembers) h;
    settled = λ i fn f b s es p h.
        saved-Inv b s (fn s) es (rw (f.pending s, f.last_change_at s) (rw p at h.remembers)) h;
  }
