-- ===== src/Scheduler/Dispatch/Choice.antt =====
-- Which entry a slot goes to: the best ranked one, or on a reserved slot the oldest of the lower
-- band that still fits.
use crypto_radar.Base.{
  ℕ, ◌%◌, ◌≡◌, Bool, true, false, ◌&&◌, none, some, List, [], ◌∷◌, arith, inl, inr, Option-cases,
  Bool-cases, nat_beq, All, Elem, All-self, All-elem, refl, sym,
}
use mathlib.Core.Path.{subst}
use mathlib.Core.Option.{some-injective}
use crypto_radar.Base.Order.{min_by, NotAfter}
use crypto_radar.Base.Order.Extremes.{min_by_least, min_by-elem}
use crypto_radar.Scheduler.Time.{Instant}
use crypto_radar.Scheduler.Types.{Band}
use crypto_radar.Scheduler.Policy.{SchedulerPolicy}
use crypto_radar.Scheduler.State.{QueuedEntry, rank_key, fair_key, path_fits}
use crypto_radar.Scheduler.Dispatch.{is_eligible, lower_band, fairest, choose}

-- The choice `c` among `es`; `fair` says that the reserved slot was used for it.
pub record IsChoice (p : SchedulerPolicy) (now : Instant) (slot : ℕ) (es : List QueuedEntry)
    (c : QueuedEntry) (fair : Bool) : Type 0 where
  pub queued : Elem c es
  pub best : fair ≡ false → All (NotAfter rank_key c) es
  pub reserved : fair ≡ true → slot % p.fair_slot_every ≡ 0
  pub lower : fair ≡ true → c.band ≡ Band.eligible
  pub oldest : fair ≡ true → All (NotAfter fair_key c) (lower_band p now es)
  -- an ordinary choice on a reserved slot means that no entry of the lower band fits
  pub unused : fair ≡ false → slot % p.fair_slot_every ≡ 0 → lower_band p now es ≡ []

lower_eligible : (b : Band) (fits : Bool) → (is_eligible b && fits) ≡ true → b ≡ Band.eligible
lower_eligible b fits h = ground arith

module _ (p : SchedulerPolicy) (now : Instant) where
  lower_band-All :
      (P : QueuedEntry → Type 0) (es : List QueuedEntry)
      → All P es
      → All (λ c. P c × (c.band ≡ Band.eligible)) (lower_band p now es)
  unfolding lower_band
  lower_band-All P [] h = tt
  lower_band-All P (e ∷ es) h =
      elim (Bool-cases (is_eligible e.band && path_fits p e.path now e.deadline)) [
        | inr other ↦ rw other (lower_band-All P es h.1)
        | inl lower ↦ rw lower ((h.0, lower_eligible e.band _ lower), lower_band-All P es h.1)
      ]

  fair-IsChoice :
      (slot : ℕ) (es ls : List QueuedEntry) (f : QueuedEntry)
      → lower_band p now es ≡ ls
      → fairest ls ≡ some f
      → slot % p.fair_slot_every ≡ 0
      → IsChoice p now slot es f true
  unfolding fairest
  fair-IsChoice slot es [] f same e turn = cc
  fair-IsChoice slot es (l ∷ ls) f same e turn =
      let m : min_by fair_key l ls ≡ f = some-injective _ _ e in
      let known : All (λ c. Elem c es × (c.band ≡ Band.eligible)) (l ∷ ls) =
        subst (All (λ c. Elem c es × (c.band ≡ Band.eligible))) same
          (lower_band-All (λ c. Elem c es) es (All-self es)) in
      let chosen : Elem f es × (f.band ≡ Band.eligible) =
        subst (λ c. Elem c es × (c.band ≡ Band.eligible)) m
          (All-elem (λ c. Elem c es × (c.band ≡ Band.eligible)) (min_by fair_key l ls)
            (min_by-elem fair_key l ls) known) in
      record {
        queued = chosen.0;
        best = λ b. cc;
        reserved = λ b. turn;
        lower = λ b. chosen.1;
        oldest = λ b.
            subst (All (NotAfter fair_key f)) (sym same)
              (subst (λ c. All (NotAfter fair_key c) (l ∷ ls)) m (min_by_least fair_key l ls));
        unused = λ b. cc;
      }

  ordinary-IsChoice :
      (slot : ℕ) (e : QueuedEntry) (es : List QueuedEntry)
      → (slot % p.fair_slot_every ≡ 0 → lower_band p now (e ∷ es) ≡ [])
      → IsChoice p now slot (e ∷ es) (min_by rank_key e es) false
  ordinary-IsChoice slot e es k = record {
    queued = min_by-elem rank_key e es;
    best = λ b. min_by_least rank_key e es;
    reserved = λ b. cc;
    lower = λ b. cc;
    oldest = λ b. cc;
    unused = λ b. k;
  }

  no_fairest : (ls : List QueuedEntry) → fairest ls ≡ none → ls ≡ []
  unfolding fairest
  no_fairest [] h = refl
  no_fairest (l ∷ ls) h = cc

  pub choose-IsChoice :
      (slot : ℕ) (e : QueuedEntry) (es : List QueuedEntry)
      → IsChoice p now slot (e ∷ es) (choose p now slot e es).0 (choose p now slot e es).1
  unfolding choose
  choose-IsChoice slot e es = elim (Bool-cases (nat_beq (slot % p.fair_slot_every) 0)) [
    | inr ordinary ↦ rw ordinary (ordinary-IsChoice slot e es (λ turn. absurd (ground arith)))
    | inl turn ↦ elim (Option-cases (fairest (lower_band p now (e ∷ es)))) [
      | inl empty ↦
          rw (turn, empty)
            (ordinary-IsChoice slot e es (λ t. no_fairest (lower_band p now (e ∷ es)) empty))
      | inr (f, found) ↦
          rw (turn, found)
            (fair-IsChoice slot (e ∷ es) (lower_band p now (e ∷ es)) f refl found (ground arith))
    ]
  ]
