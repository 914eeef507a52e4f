-- ===== src/Risk/Account/Marks.antt =====
-- The high-water mark of radar_v08/domain/risk.py over a history of equities.
use crypto_radar.Base.{
  ◌≡◌, ◌∙◌, inl, inr, Bool-cases, refl, arith, true, false, List, [], ◌∷◌, Elem, here, there, All,
}
use crypto_radar.Base.Result.{Result, ok, ◌>>=◌}
use crypto_radar.Decimal.{Decimal, IsOrder, less}
use crypto_radar.Risk.Envelope.{Field}
use crypto_radar.Risk.Account.{next_high_water}

module _ {D : Type 0} (num : Decimal D) where
  -- The mark after each of the equities is observed.
  unfoldable pub high_water_after : D → List D → Result Field D
  high_water_after mark [] = ok mark
  high_water_after mark (x ∷ xs) = next_high_water num mark x >>= (λ next. high_water_after next xs)

  -- It is the greatest of the first mark and the equities.
  pub record IsGreatest (mark : D) (xs : List D) (top : D) : Type 0 where
    pub above : All (λ x. num.leb x top ≡ true) (mark ∷ xs)
    pub among : Elem top (mark ∷ xs)

  module _ (order : IsOrder num) where
    step_up :
        (mark x : D)
        → num.leb mark (num.whole 0) ≡ false
        → (next : D) × (next_high_water num mark x ≡ ok next)
          × (num.leb next (num.whole 0) ≡ false)
          × (num.leb mark next ≡ true)
          × (num.leb x next ≡ true)
          × Elem next (mark ∷ x ∷ [])
    unfolding next_high_water
    step_up mark x pos = elim (Bool-cases (less num mark x)) [
      | inl up ↦ (
        x,
        ground arith,
        ground (arith, order.total x mark, order.trans mark x (num.whole 0), order.total mark x),
        ground (arith, order.total x mark),
        ground (arith, order.total x x),
        Elem.there (Elem.here refl),
      )
      | inr not_up ↦ (
        mark,
        ground arith,
        pos,
        ground (arith, order.total mark mark),
        ground arith,
        Elem.here refl,
      )
    ]

    earlier_mark :
        {mark x next top : D} {xs : List D}
        → Elem next (mark ∷ x ∷ [])
        → Elem top (next ∷ xs)
        → Elem top (mark ∷ x ∷ xs)
    earlier_mark (here e) (here f) = Elem.here (f ∙ e)
    earlier_mark (there (here e)) (here f) = Elem.there (Elem.here (f ∙ e))
    earlier_mark (there (there m)) (here f) = elim m [ ]
    earlier_mark from (there m) = Elem.there (Elem.there m)

    -- From a positive mark, observing any list of equities never raises an error, and the high-
    -- water mark is then the greatest of the first mark and the equities. The order of decimals is
    -- total and transitive.
    pub high_water-IsGreatest :
        (mark : D) (xs : List D)
        → num.leb mark (num.whole 0) ≡ false
        → (top : D) × (high_water_after mark xs ≡ ok top) × IsGreatest mark xs top
    unfolding high_water_after
    high_water-IsGreatest mark [] pos = (
      mark,
      refl,
      record { above = (ground (arith, order.total mark mark), tt); among = Elem.here refl },
    )
    high_water-IsGreatest mark (x ∷ xs) pos =
        let (next, at_next, pos_next, over, over_x, from) = step_up mark x pos in
        let (top, at_top, is) = high_water-IsGreatest next xs pos_next in
        (
          top,
          ground (arith, at_next, at_top),
          record {
            above = (
              order.trans mark next top over is.above.0,
              (order.trans x next top over_x is.above.0, is.above.1),
            );
            among = earlier_mark from is.among;
          },
        )
