-- ===== src/Outbox/Log.antt =====
-- The outbox as a log: its numbering, its delivery ids, and the replay of an item's moves.
use text.Mathlib.Text.{◌==◌ as str_eq}
use crypto_radar.Base.{
  ℕ, ◌+◌, ◌≤◌, String, ◌≡◌, refl, true, false, Option, none, some, List, [], ◌∷◌, ◌++◌, arith, ltb,
  if◌then◌else◌, All, All-append, length,
}
use crypto_radar.Outbox.Lifecycle.{LifecycleState, check_transition}
use crypto_radar.Outbox.Table.{
  DeliveryId, delivery_eq, Payload, event_payload, lifecycle_payload, handoff_payload, OutboxEntry,
  by_delivery, last_seq, entries_after,
}

-- The keys are the numbers that follow `n`, without a gap.
abbrev pub IsNumbered : ℕ → List OutboxEntry → Type 0
IsNumbered n [] = Unit
IsNumbered n (r ∷ rs) = (r.seq ≡ n + 1) × IsNumbered (n + 1) rs

pub IsNumbered-append :
    (n : ℕ) (rs : List OutboxEntry) (r : OutboxEntry)
    → IsNumbered n rs
    → r.seq ≡ n + length rs + 1
    → IsNumbered n (rs ++ r ∷ [])
IsNumbered-append n [] r h e = (omega (arith, e), tt)
IsNumbered-append n (x ∷ xs) r h e = (h.0, IsNumbered-append (n + 1) xs r h.1 (omega (arith, e)))

pub last_seq-length :
    (n : ℕ) (rs : List OutboxEntry)
    → IsNumbered n rs
    → (last_seq rs ≡ (if ltb 0 (length rs) then n + length rs else 0))
unfolding last_seq
last_seq-length n [] h = refl
last_seq-length n (r ∷ rs) h = ground (arith, last_seq-length (n + 1) rs h.1)

-- No two rows have the same delivery id.
abbrev pub IsDistinct : List OutboxEntry → Type 0
IsDistinct [] = Unit
IsDistinct (r ∷ rs) = All (λ x. delivery_eq r.delivery_id x.delivery_id ≡ false) rs × IsDistinct rs

pub IsDistinct-append :
    (rs : List OutboxEntry) (r : OutboxEntry)
    → IsDistinct rs
    → All (λ x. delivery_eq x.delivery_id r.delivery_id ≡ false) rs
    → IsDistinct (rs ++ r ∷ [])
IsDistinct-append [] r h fresh = (tt, tt)
IsDistinct-append (x ∷ xs) r h fresh = (
  All-append (λ y. delivery_eq x.delivery_id y.delivery_id ≡ false) xs (r ∷ []) h.0 (fresh.0, tt),
  IsDistinct-append xs r h.1 fresh.1,
)

pub by_delivery_none :
    (id : DeliveryId) (rs : List OutboxEntry)
    → by_delivery id rs ≡ none
    → All (λ x. delivery_eq x.delivery_id id ≡ false) rs
unfolding by_delivery
by_delivery_none id [] h = tt
by_delivery_none id (r ∷ rs) h = ground (arith, by_delivery_none id rs)

-- The state that the rows of an item lead to.
abbrev pub moved : String → Option LifecycleState → Payload → Option LifecycleState
moved item at (event_payload row) = at
moved item at (lifecycle_payload p) = if str_eq p.item_id item then some p.state else at
moved item at (handoff_payload p) = at

abbrev pub replay : String → Option LifecycleState → List OutboxEntry → Option LifecycleState
replay item at [] = at
replay item at (r ∷ rs) = replay item (moved item at r.payload) rs

pub replay-append :
    (item : String) (at : Option LifecycleState) (rs : List OutboxEntry) (r : OutboxEntry)
    → replay item at (rs ++ r ∷ []) ≡ moved item (replay item at rs) r.payload
replay-append item at [] r = refl
replay-append item at (x ∷ xs) r = replay-append item (moved item at x.payload) xs r

-- A row of an item is an allowed move from the state that the rows before it lead to.
abbrev pub IsMove : String → Option LifecycleState → Payload → Type 0
IsMove item at (event_payload row) = Unit
IsMove item at (lifecycle_payload p) =
    str_eq p.item_id item ≡ true → (p.previous_state ≡ at) × (check_transition at p.state ≡ true)
IsMove item at (handoff_payload p) = Unit

abbrev pub IsLegal : String → Option LifecycleState → List OutboxEntry → Type 0
IsLegal item at [] = Unit
IsLegal item at (r ∷ rs) = IsMove item at r.payload × IsLegal item (moved item at r.payload) rs

pub IsLegal-append :
    (item : String) (at : Option LifecycleState) (rs : List OutboxEntry) (r : OutboxEntry)
    → IsLegal item at rs
    → IsMove item (replay item at rs) r.payload
    → IsLegal item at (rs ++ r ∷ [])
IsLegal-append item at [] r h m = (m, tt)
IsLegal-append item at (x ∷ xs) r h m =
    (h.0, IsLegal-append item (moved item at x.payload) xs r h.1 m)

all_after : (m n : ℕ) (rs : List OutboxEntry) → m ≤ n → IsNumbered n rs → entries_after m rs ≡ rs
unfolding entries_after
all_after m n [] le h = refl
all_after m n (r ∷ rs) le h = ground (arith, all_after m (n + 1) rs (omega (arith, le)) h.1)

-- The rows after a position, in a numbered log: none is lost and none comes twice.
pub entries_after-append :
    (n : ℕ) (xs ys : List OutboxEntry)
    → IsNumbered n (xs ++ ys)
    → entries_after (n + length xs) (xs ++ ys) ≡ ys
unfolding entries_after
entries_after-append n [] ys h = all_after (n + 0) n ys (omega arith) h
entries_after-append n (x ∷ xs) ys h =
    let later : entries_after (n + 1 + length xs) (xs ++ ys) ≡ ys =
      entries_after-append (n + 1) xs ys h.1 in
    let same : n + 1 + length xs ≡ n + length (x ∷ xs) = omega arith in ground (arith, later, same)
