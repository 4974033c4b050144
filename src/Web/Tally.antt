-- ===== src/Web/Tally.antt =====
-- What the limiter holds of an address after each of its operations.
use nf_sdk.Base.{
  ℕ, ◌<◌, ◌≤◌, Bool, true, false, none, some, List, [], ◌∷◌, ◌++◌, Text, length, text_eq,
  text_eq_iff, lookup, lookup-insert, lookup-remove, if◌then◌else◌, ◌≡◌, refl, arith,
}
use nf_sdk.Web.Limiter.{
  Limiter, recent, attempts_of, or_none, set_attempts, allowed, verdict, oldest_wait,
  record_failure, reset,
}
use nf_sdk.Web.Spread.{number, recent-recent, length-recent-append}

pub attempts_of-set :
    (key ip : Text) (ts : List ℕ) (l : Limiter)
    → attempts_of ip (set_attempts key ts l) ≡ (if text_eq key ip then ts else attempts_of ip l)
attempts_of-set key ip ts l = rw (lookup-insert key ip ts l.attempts) (chosen (text_eq key ip))
  where
    chosen :
        (b : Bool)
        → or_none (if b then some ts else lookup ip l.attempts)
          ≡ (if b then ts else attempts_of ip l)
    chosen true = refl
    chosen false = refl

pub attempts_of-reset :
    (key ip : Text) (l : Limiter)
    → attempts_of ip (reset key l) ≡ (if text_eq key ip then [] else attempts_of ip l)
unfolding reset
attempts_of-reset key ip l = rw (lookup-remove key ip l.attempts) (chosen (text_eq key ip))
  where
    chosen :
        (b : Bool)
        → or_none (if b then none else lookup ip l.attempts) ≡ (if b then [] else attempts_of ip l)
    chosen true = refl
    chosen false = refl

-- Pruning an address takes nothing away that still counts.
pub pruned :
    (w now later : ℕ) (key ip : Text) (l : Limiter) (b : Bool)
    → text_eq key ip ≡ b
    → now ≤ later
    → recent later w (attempts_of ip (set_attempts key (recent now w (attempts_of key l)) l))
      ≡ recent later w (attempts_of ip l)
pruned w now later key ip l true e h =
    let same : key ≡ ip = (text_eq_iff key ip).0 e in
    rw (
      attempts_of-set key ip (recent now w (attempts_of key l)) l,
      e,
      recent-recent w now later (attempts_of key l) h,
      same,
    )
pruned w now later key ip l false e h =
    rw (attempts_of-set key ip (recent now w (attempts_of key l)) l, e)

-- A failure at an address counts from its time on, and at another address it does not count.
pub failed_here :
    (w now later : ℕ) (key ip : Text) (l : Limiter) (f : List ℕ)
    → text_eq key ip ≡ true
    → length (recent later w (attempts_of ip l)) ≡ number later w f
    → length (recent later w (attempts_of ip (record_failure now key l))) ≡ number later w (now ∷ f)
unfolding record_failure number
failed_here w now later key ip l f e h =
    let same : key ≡ ip = (text_eq_iff key ip).0 e in
    rw (
      attempts_of-set key ip (attempts_of key l ++ now ∷ []) l,
      e,
      length-recent-append w later now (attempts_of key l),
      same,
      h,
    )

pub allowed-below :
    (now : ℕ) (l : Limiter) (kept : List ℕ) → verdict now l kept ≡ allowed → length kept < l.limit
unfolding verdict oldest_wait
allowed-below now l [] h = ground arith
allowed-below now l (t ∷ ts) h = ground arith
