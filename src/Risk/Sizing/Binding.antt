-- ===== src/Risk/Sizing/Binding.antt =====
-- Which constraint sets the size of an entry (radar_v08/domain/risk.py).
use crypto_radar.Base.{ℕ, ◌<◌, ◌≡◌, arith, true, false}
use crypto_radar.Decimal.{Decimal, IsOrder, least}
use crypto_radar.Risk.Envelope.{Budget}
use crypto_radar.Risk.Sizing.{
  BindingConstraint, per_entry_loss, aggregate_loss, notional, cash, Candidates,
  candidate_quantities, quantity_of, binding_of,
}

module _ {D : Type 0} (num : Decimal D) where
  abbrev value_of : D → D → D → D → BindingConstraint → D
  value_of a b c d per_entry_loss = a
  value_of a b c d aggregate_loss = b
  value_of a b c d notional = c
  value_of a b c d cash = d

  -- The candidate of a constraint.
  abbrev pub candidate : Candidates D → BindingConstraint → D
  candidate c k = value_of c.per_entry_loss c.aggregate_loss c.notional c.cash k

  abbrev pub place : BindingConstraint → ℕ
  place per_entry_loss = 0
  place aggregate_loss = 1
  place notional = 2
  place cash = 3

  -- The binding constraint has the least candidate, each earlier one has a larger candidate, and it sets
  -- the quantity.
  pub record IsBinding (c : Candidates D) : Type 0 where
    pub least_of : (k : BindingConstraint) → num.leb (candidate c c.binding) (candidate c k) ≡ true
    pub first :
        (k : BindingConstraint)
        → place k < place c.binding
        → num.leb (candidate c k) (candidate c c.binding) ≡ false
    pub taken : quantity_of num c ≡ candidate c c.binding

  module _ (order : IsOrder num) where
    refl_leb : (a : D) → num.leb a a ≡ true
    refl_leb a = ground (arith, order.total a a)

    binds :
        (a b c d : D) (k : BindingConstraint)
        → num.leb (value_of a b c d (binding_of num a b c d)) (value_of a b c d k) ≡ true
    binds a b c d k = ground (
      arith,
      order.trans a b c,
      order.trans a b d,
      order.trans a c b,
      order.trans a c d,
      order.trans a d b,
      order.trans a d c,
      order.trans b a c,
      order.trans b a d,
      order.trans b c a,
      order.trans b c d,
      order.trans b d a,
      order.trans b d c,
      order.trans c a b,
      order.trans c a d,
      order.trans c b a,
      order.trans c b d,
      order.trans c d a,
      order.trans c d b,
      order.trans d a b,
      order.trans d a c,
      order.trans d b a,
      order.trans d b c,
      order.trans d c a,
      order.trans d c b,
      order.total a b,
      order.total a c,
      order.total a d,
      order.total b a,
      order.total b c,
      order.total b d,
      order.total c a,
      order.total c b,
      order.total c d,
      order.total d a,
      order.total d b,
      order.total d c,
      refl_leb a,
      refl_leb b,
      refl_leb c,
      refl_leb d,
    )

    binds_first :
        (a b c d : D) (k : BindingConstraint)
        → place k < place (binding_of num a b c d)
        → num.leb (value_of a b c d k) (value_of a b c d (binding_of num a b c d)) ≡ false
    binds_first a b c d k lt = ground (
      arith,
      order.trans a b c,
      order.trans a b d,
      order.trans a c b,
      order.trans a c d,
      order.trans a d b,
      order.trans a d c,
      order.trans b a c,
      order.trans b a d,
      order.trans b c a,
      order.trans b c d,
      order.trans b d a,
      order.trans b d c,
      order.trans c a b,
      order.trans c a d,
      order.trans c b a,
      order.trans c b d,
      order.trans c d a,
      order.trans c d b,
      order.trans d a b,
      order.trans d a c,
      order.trans d b a,
      order.trans d b c,
      order.trans d c a,
      order.trans d c b,
      order.total a b,
      order.total a c,
      order.total a d,
      order.total b a,
      order.total b c,
      order.total b d,
      order.total c a,
      order.total c b,
      order.total c d,
      order.total d a,
      order.total d b,
      order.total d c,
      refl_leb a,
      refl_leb b,
      refl_leb c,
      refl_leb d,
    )

    least_bound :
        (a b c d : D)
        → least num (least num (least num a b) c) d ≡ value_of a b c d (binding_of num a b c d)
    least_bound a b c d = ground arith

    -- The binding constraint has the least of the four candidates, every constraint before it has a
    -- larger one, and its candidate is the quantity. The order of decimals is total and transitive.
    pub candidates-IsBinding :
        (room : Budget D) (ask unit fee : D)
        → IsBinding (candidate_quantities num room ask unit fee)
    unfolding candidate_quantities quantity_of
    candidates-IsBinding room ask unit fee = record {
      least_of = binds _ _ _ _;
      first = binds_first _ _ _ _;
      taken = least_bound _ _ _ _;
    }
