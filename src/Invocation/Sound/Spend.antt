-- ===== src/Invocation/Sound/Spend.antt =====
-- A reservation in both windows, inside the limits and in the sums.
use crypto_radar.Base.{
  ℕ, ◌+◌, ◌||◌, String, ◌≡◌, none, if◌then◌else◌, arith, Option-cases, inl, inr,
}
use crypto_radar.Base.Equality.{◌==◌, string_eq}
use crypto_radar.Base.Dict.{Dict, lookup, lookup-insert}
use crypto_radar.Base.Dict.Total.{total-insert_new, total-insert_old}
use crypto_radar.Invocation.Lease.{
  ModelBudget, BudgetWindows, Instant, WindowKind, hour, day, WindowKey, window_equality,
  window_eq_iff, refusal_reason,
}
use crypto_radar.Invocation.Store.{
  Store, reserved, usage_of, hour_key, day_key, reserve, reserve_one,
}
use crypto_radar.Invocation.Sound.{IsWithin, units, spent}

lookup-reserve_one :
    (k j : WindowKey) (d : Dict WindowKey ℕ)
    → reserved j (reserve_one k d) ≡ (if k == j then reserved k d + 1 else reserved j d)
unfolding reserved reserve_one
lookup-reserve_one k j d = ground (arith, lookup-insert k j (reserved k d + 1) d)

-- One unit more in a window is one unit more in the sum it belongs to.
spent-reserve_one :
    (m : String) (kind : WindowKind) (k : WindowKey) (d : Dict WindowKey ℕ)
    → spent m kind (reserve_one k d) ≡ spent m kind d + units m kind k 1
unfolding reserved reserve_one
spent-reserve_one m kind k d = elim (Option-cases (lookup k d)) [
  | inl new ↦ ground (arith, total-insert_new (units m kind) k (reserved k d + 1) d new)
  | inr (n, old) ↦ ground (arith, total-insert_old (units m kind) k (reserved k d + 1) n d old)
]

pub spent-reserve :
    (m model : String) (kind : WindowKind) (w : BudgetWindows) (s : Store)
    → spent m kind (reserve model w s).budget
      ≡ spent m kind s.budget + (if model == m then 1 else 0)
unfolding reserve
spent-reserve m model hour w s = ground (
  arith,
  spent-reserve_one m hour (day_key model w) (reserve_one (hour_key model w) s.budget),
  spent-reserve_one m hour (hour_key model w) s.budget,
)
spent-reserve m model day w s = ground (
  arith,
  spent-reserve_one m day (day_key model w) (reserve_one (hour_key model w) s.budget),
  spent-reserve_one m day (hour_key model w) s.budget,
)

abbrev at : String → WindowKind → Instant → WindowKey
at m kind t = record { model = m; kind = kind; start = t }

reserved-reserve :
    (j : WindowKey) (model : String) (w : BudgetWindows) (s : Store)
    → reserved j (reserve model w s).budget ≡ (
        if day_key model w == j
        then reserved (day_key model w) (reserve_one (hour_key model w) s.budget) + 1
        else reserved j (reserve_one (hour_key model w) s.budget))
unfolding reserve
reserved-reserve j model w s =
    lookup-reserve_one (day_key model w) j (reserve_one (hour_key model w) s.budget)

-- One unit more in the hour and one in the day, and in no other window.
pub reserved-reserve_iff :
    (k : WindowKey) (model : String) (w : BudgetWindows) (s : Store)
    → reserved k (reserve model w s).budget
      ≡ reserved k s.budget + (if hour_key model w == k || day_key model w == k then 1 else 0)
reserved-reserve_iff k model w s = ground (
  arith,
  reserved-reserve k model w s,
  lookup-reserve_one (hour_key model w) k s.budget,
  lookup-reserve_one (hour_key model w) (day_key model w) s.budget,
  window_eq_iff (hour_key model w) k,
  window_eq_iff (day_key model w) k,
  window_eq_iff (hour_key model w) (day_key model w),
)

-- A reservation that the limits allow keeps every window inside them.
pub reserve-IsWithin :
    (limits : String → ModelBudget) (b : ModelBudget) (w : BudgetWindows) (s : Store)
    → b ≡ limits b.model
    → refusal_reason (usage_of b w s) ≡ none
    → IsWithin limits s.budget
    → IsWithin limits (reserve b.model w s).budget
unfolding usage_of refusal_reason
reserve-IsWithin limits b w s own open_ h = record {
  hourly = λ m t. ground (
    arith,
    reserved-reserve (at m hour t) b.model w s,
    lookup-reserve_one (hour_key b.model w) (at m hour t) s.budget,
    window_eq_iff (hour_key b.model w) (at m hour t),
    window_eq_iff (day_key b.model w) (at m hour t),
    h.hourly m t,
  );
  daily = λ m t. ground (
    arith,
    reserved-reserve (at m day t) b.model w s,
    lookup-reserve_one (hour_key b.model w) (at m day t) s.budget,
    lookup-reserve_one (hour_key b.model w) (day_key b.model w) s.budget,
    window_eq_iff (hour_key b.model w) (at m day t),
    window_eq_iff (day_key b.model w) (at m day t),
    window_eq_iff (hour_key b.model w) (day_key b.model w),
    h.daily m t,
  );
}
