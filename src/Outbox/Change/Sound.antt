-- ===== src/Outbox/Change/Sound.antt =====
-- The invariant of the outbox tables under a change.
use text.Mathlib.TextEquality.{eq_iff}
use crypto_radar.Base.{
  ℕ, ◌+◌, ◌≤◌, String, ◌≡◌, refl, sym, ◌∙◌, false, none, List, [], ◌∷◌, ◌++◌, arith, length, All,
  All-append, All-map,
}
use mathlib.Core.Path.{subst}
use crypto_radar.Base.Equality.{string_eq}
use crypto_radar.Base.Dict.{lookup, lookup-insert}
use crypto_radar.Outbox.Table.{
  DeliveryId, event_id, lifecycle_id, handoff_id, delivery_eq, OutboxEntry, Store, last_seq,
}
use crypto_radar.Outbox.Record.{event_rows, state_of}
use crypto_radar.Outbox.Consumer.{position_of}
use crypto_radar.Outbox.Sound.{IsSound, IsAddressed, IsCounted}
use crypto_radar.Outbox.Log.{
  IsNumbered, IsNumbered-append, last_seq-length, IsDistinct-append, by_delivery_none, moved,
  replay, replay-append, IsMove, IsLegal-append,
}
use crypto_radar.Outbox.Change.{Appends, Change, read_on, noted, handed, entered}

event_rows-append :
    (e : String) (rs : List OutboxEntry) (r : OutboxEntry)
    → event_rows e (rs ++ r ∷ []) ≡ event_rows e rs + event_rows e (r ∷ [])
unfolding event_rows
event_rows-append e [] r = omega arith
event_rows-append e (x ∷ xs) r = omega (arith, event_rows-append e xs r)

last_seq-append :
    (n : ℕ) (rs : List OutboxEntry) (r : OutboxEntry)
    → IsNumbered n (rs ++ r ∷ [])
    → last_seq (rs ++ r ∷ []) ≡ n + length rs + 1
unfolding last_seq
last_seq-append n [] r h = ground arith
last_seq-append n (x ∷ xs) r h = ground (arith, last_seq-append (n + 1) xs r h.1)

IsCounted-more :
    (e : String) (n k : ℕ) (id : DeliveryId) → IsCounted e n id → IsCounted e (n + k) id
IsCounted-more e n k (event_id x m) h = λ same. omega (arith, h same)
IsCounted-more e n k (lifecycle_id x t) h = tt
IsCounted-more e n k (handoff_id x) h = tt

next_fresh :
    (e : String) (n : ℕ) (id : DeliveryId)
    → IsCounted e n id
    → delivery_eq id (event_id e (n + 1)) ≡ false
next_fresh e n (event_id x m) h = ground (arith, h)
next_fresh e n (lifecycle_id x t) h = refl
next_fresh e n (handoff_id x) h = refl

-- What every appended row keeps, once its delivery id is fresh and its moves are legal.
module _ (s s' : Store) (r : OutboxEntry) (h : IsSound s) (a : Appends s s' r) where
  IsNumbered-on : IsNumbered 0 s'.outbox
  IsNumbered-on = rw a.outbox (
      IsNumbered-append 0 s.outbox r h.numbered
        (ground (arith, a.seq, last_seq-length 0 s.outbox h.numbered)))

  counted_on :
      ((e : String) → IsCounted e (event_rows e s.outbox + event_rows e (r ∷ [])) r.delivery_id)
      → (e : String) → All (λ x. IsCounted e (event_rows e s'.outbox) x.delivery_id) s'.outbox
  counted_on own e =
      let n = event_rows e s.outbox in
      let k = event_rows e (r ∷ []) in
      rw (a.outbox, event_rows-append e s.outbox r)
        (All-append (λ x. IsCounted e (n + k) x.delivery_id) s.outbox (r ∷ [])
          (All-map (λ x. IsCounted e n x.delivery_id) (λ x. IsCounted e (n + k) x.delivery_id)
            s.outbox (λ x c. IsCounted-more e n k x.delivery_id c) (h.counted e))
          (own e, tt))

  known_on : (name : String) → position_of name s' ≤ last_seq s'.outbox
  unfolding position_of
  known_on name =
      let numbered : IsNumbered 0 (s.outbox ++ r ∷ []) =
        subst (IsNumbered 0) a.outbox IsNumbered-on in
      ground (
        arith,
        a.outbox,
        a.cursors,
        h.known name,
        last_seq-length 0 s.outbox h.numbered,
        last_seq-append 0 s.outbox r numbered,
      )

  appended :
      All (λ x. delivery_eq x.delivery_id r.delivery_id ≡ false) s.outbox
      → ((e : String) → IsCounted e (event_rows e s.outbox + event_rows e (r ∷ [])) r.delivery_id)
      → IsAddressed r.payload
      → ((item : String)
          → state_of (lookup item s'.items) ≡ moved item (replay item none s.outbox) r.payload)
      → ((item : String) → IsMove item (replay item none s.outbox) r.payload)
      → IsSound s'
  appended fresh own addressed goes legal = record {
    numbered = IsNumbered-on;
    distinct = rw a.outbox (IsDistinct-append s.outbox r h.distinct fresh);
    counted = counted_on own;
    addressed =
        rw a.outbox
          (All-append (λ x. IsAddressed x.payload) s.outbox (r ∷ []) h.addressed (addressed, tt));
    replayed = λ item. rw a.outbox (goes item ∙ sym (replay-append item none s.outbox r));
    legal = λ item. rw a.outbox (IsLegal-append item none s.outbox r (h.legal item) (legal item));
    known = λ name. known_on name;
  }

pub Change-IsSound : (s s' : Store) → Change s s' → IsSound s → IsSound s'
unfolding event_rows position_of
Change-IsSound s s' (read_on log items cursors) h = record {
  numbered = rw log h.numbered;
  distinct = rw log h.distinct;
  counted = λ e. rw log (h.counted e);
  addressed = rw log h.addressed;
  replayed = λ item. rw (log, items) (h.replayed item);
  legal = λ item. rw log (h.legal item);
  known = λ name. rw log ((cursors name).1 (h.known name));
}
Change-IsSound s s' (noted r e row a id kind subject payload items) h =
    let n = event_rows e s.outbox in
    appended s s' r h a
      (rw id (
        All-map (λ x. IsCounted e n x.delivery_id)
          (λ x. delivery_eq x.delivery_id (event_id e (n + 1)) ≡ false) s.outbox
          (λ x c. next_fresh e n x.delivery_id c) (h.counted e)))
      (λ e'. rw id (λ same. ground (arith, kind, subject, eq_iff e e'))) (rw payload tt)
      (λ item. ground (arith, payload, items, h.replayed item)) (λ item. rw payload tt)
Change-IsSound s s' (handed r p a id new kind payload addressed items) h =
    appended s s' r h a (by_delivery_none r.delivery_id s.outbox new) (λ e. rw id tt)
      (rw payload addressed) (λ item. ground (arith, payload, items, h.replayed item))
      (λ item. rw payload tt)
Change-IsSound s s' (entered r p row a id new kind payload before move state items) h =
    appended s s' r h a (by_delivery_none r.delivery_id s.outbox new) (λ e. rw id tt)
      (rw payload tt)
      (λ item.
        ground
          (arith, payload, items, state, h.replayed item, lookup-insert p.item_id item row s.items))
      (λ item.
        rw payload (λ same. ground (arith, before, move, h.replayed item, eq_iff p.item_id item)))
