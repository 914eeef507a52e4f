-- ===== src/Cooldown/Restart.antt =====
-- What a recorded send means for the checks that follow it.
use text.Mathlib.TextEquality.{eq_iff}
use crypto_radar.Base.{String, ◌≡◌, ◌↔◌, false, Option, some, arith}
use crypto_radar.Base.Dict.{Dict, lookup, insert, lookup-insert}
use crypto_radar.Float.{Float}
use crypto_radar.Invocation.Lease.{Instant}
use crypto_radar.Cooldown.{
  Pair, pair_equality, pair_eq_iff, Sent, Limits, jumped, judge, sent_at, check_cooldown,
  get_cooldown, set_cooldown, record_send,
}

module _ {F : Type 0} (num : Float F) (limits : Limits F) (p : Pair) (sent now : Instant)
    (setup direction : String) (score : Option F) (table : Dict Pair (Sent F)) where
  judged :
      (setup' direction' : String) (score' : Option F)
      → ((judge num limits now setup' direction' score'
            (some (sent_at sent setup direction score))).allowed
          ≡ false)
        ↔ ((num.at_least (limits.elapsed_hours now sent) limits.cooldown_hours ≡ false)
            × (setup ≡ setup')
            × (direction ≡ direction')
            × (jumped num limits score' score ≡ false))
  judged setup' direction' score' = ground (arith, eq_iff setup setup', eq_iff direction direction')

  -- After a send is recorded, its pair is refused at a later check exactly if the cooldown has not
  -- run out, the setup and the direction are those of the send, and the score has not jumped.
  pub refused_iff :
      (setup' direction' : String) (score' : Option F)
      → ((check_cooldown num limits p now setup' direction' score'
            (record_send p sent setup direction score table)).allowed
          ≡ false)
        ↔ ((num.at_least (limits.elapsed_hours now sent) limits.cooldown_hours ≡ false)
            × (setup ≡ setup')
            × (direction ≡ direction')
            × (jumped num limits score' score ≡ false))
  unfolding check_cooldown record_send set_cooldown get_cooldown
  refused_iff setup' direction' score' =
      let row = sent_at sent setup direction score in
      let found : lookup p (insert p row table) ≡ some row =
        ground (arith, lookup-insert p p row table, pair_eq_iff p p) in
      rw found (judged setup' direction' score')
