-- ===== src/Invocation/Change/Sound.antt =====
-- The invariant of the tables and the rows that are there, under a change.
use crypto_radar.Base.{String, ◌≡◌, sym, true, some, arith, Bool-cases, inl, inr}
use crypto_radar.Base.Equality.{◌==◌, string_eq}
use crypto_radar.Base.Dict.{lookup, insert, lookup-insert}
use crypto_radar.Base.Dict.Total.{total-insert_new, total-insert_old}
use crypto_radar.Invocation.Lease.{is_active, ModelBudget, InvocationRecord}
use crypto_radar.Invocation.Store.{Store}
use crypto_radar.Invocation.Sound.{IsTable, IsWithin, IsSound, owed}
use crypto_radar.Invocation.Sound.Rows.{new-IsTable, change-IsTable}
use crypto_radar.Invocation.Sound.Spend.{spent-reserve, reserve-IsWithin}
use crypto_radar.Invocation.Change.{
  Follows, Follows-refl, Follows-trans, Change, keep, create, touch, bill, Changes, done, after,
}
use text.Mathlib.TextEquality.{eq_iff}
use mathlib.Core.Path.{subst}
use mathlib.Core.Option.{some-injective}

module _ (limits : String → ModelBudget) where
  goes_on :
      (s s' : Store) (id : String) (r r' : InvocationRecord)
      → IsTable s.invocations
      → lookup id s.invocations ≡ some r
      → is_active r.state ≡ true
      → Follows r r'
      → s'.invocations ≡ insert id r' s.invocations
      → IsTable s'.invocations
  goes_on s s' id r r' h found active f e =
      subst IsTable (sym e)
        (change-IsTable id r r' s.invocations h found f.same_id f.same_identity (λ a. active))

  pub Change-IsSound : {s s' : Store} → Change limits s s' → IsSound limits s → IsSound limits s'
  Change-IsSound (keep e e') h = record {
    table = subst IsTable (sym e) h.table;
    within = subst (IsWithin limits) (sym e') h.within;
    balanced = λ m k. ground (arith, h.balanced m k);
  }
  Change-IsSound {s} (create r b w own model none_yet new fresh open_ e e') h = record {
    table = subst IsTable (sym e) (new-IsTable r s.invocations h.table new fresh);
    within = subst (IsWithin limits) (sym e') (reserve-IsWithin limits b w s own open_ h.within);
    balanced = λ m k. ground (
      arith,
      h.balanced m k,
      spent-reserve m b.model k w s,
      total-insert_new (owed m) r.invocation_id r s.invocations new,
    );
  }
  Change-IsSound {s} {s'} (touch id r r' found active f same e e') h = record {
    table = goes_on s s' id r r' h.table found active f e;
    within = subst (IsWithin limits) (sym e') h.within;
    balanced = λ m k. ground (
      arith,
      h.balanced m k,
      f.same_model,
      total-insert_old (owed m) id r' r s.invocations found,
    );
  }
  Change-IsSound {s} {s'} (bill id r r' b w own model found active f more open_ e e') h = record {
    table = goes_on s s' id r r' h.table found active f e;
    within = subst (IsWithin limits) (sym e') (reserve-IsWithin limits b w s own open_ h.within);
    balanced = λ m k. ground (
      arith,
      h.balanced m k,
      f.same_model,
      spent-reserve m b.model k w s,
      total-insert_old (owed m) id r' r s.invocations found,
    );
  }

  pub Changes-IsSound : {s s' : Store} → Changes limits s s' → IsSound limits s → IsSound limits s'
  Changes-IsSound done h = h
  Changes-IsSound (after cs c) h = Change-IsSound c (Changes-IsSound cs h)

  -- A row goes on in the changed table.
  abbrev pub GoesOn : String → InvocationRecord → Store → Type 0
  GoesOn id r s = (r' : InvocationRecord) × (lookup id s.invocations ≡ some r') × Follows r r'

  replaced :
      (s s' : Store) (j : String) (q q' : InvocationRecord) (id : String) (r : InvocationRecord)
      → lookup j s.invocations ≡ some q
      → Follows q q'
      → s'.invocations ≡ insert j q' s.invocations
      → lookup id s.invocations ≡ some r
      → GoesOn id r s'
  replaced s s' j q q' id r found f e there_is = elim (Bool-cases (j == id)) [
    | inl same ↦ (
      q',
      ground (arith, lookup-insert j id q' s.invocations),
      subst (λ x. Follows x q') (some-injective _ _ (ground (arith, eq_iff j id))) f,
    )
    | inr other ↦ (r, ground (arith, lookup-insert j id q' s.invocations), Follows-refl r)
  ]

  pub Change-GoesOn :
      {s s' : Store} (id : String) (r : InvocationRecord)
      → Change limits s s'
      → lookup id s.invocations ≡ some r
      → GoesOn id r s'
  Change-GoesOn id r (keep e e') h = (r, ground arith, Follows-refl r)
  Change-GoesOn {s} id r (create q b w own model none_yet new fresh open_ e e') h = (
    r,
    ground (arith, lookup-insert q.invocation_id id q s.invocations, eq_iff q.invocation_id id),
    Follows-refl r,
  )
  Change-GoesOn {s} {s'} id r (touch j q q' found active f same e e') h =
      replaced s s' j q q' id r found f e h
  Change-GoesOn {s} {s'} id r (bill j q q' b w own model found active f more open_ e e') h =
      replaced s s' j q q' id r found f e h

  pub Changes-GoesOn :
      {s s' : Store} (id : String) (r : InvocationRecord)
      → Changes limits s s'
      → lookup id s.invocations ≡ some r
      → GoesOn id r s'
  Changes-GoesOn id r done h = (r, h, Follows-refl r)
  Changes-GoesOn id r (after cs c) h =
      let (r1, found, f) = Changes-GoesOn id r cs h in
      let (r2, found', g) = Change-GoesOn id r1 c found in (r2, found', Follows-trans r r1 r2 f g)
