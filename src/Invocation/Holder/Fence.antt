-- ===== src/Invocation/Holder/Fence.antt =====
-- The answers of `_holder_action` of adapters/invocation_store.py on each side of the fence.
use crypto_radar.Base.{
  ℕ, ◌<◌, String, true, false, ◌≡◌, ◌≢◌, refl, ◌∙◌, Option, none, some, arith, Option-cases, inl,
  inr,
}
use text.Mathlib.TextEquality.{eq_iff}
use crypto_radar.Base.Equality.{string_eq}
use crypto_radar.Base.Dict.{lookup, insert, lookup-insert}
use crypto_radar.Invocation.Lease.{
  Instant, ok, ModelBudget, InvocationState, is_active, completed, released, ReleaseReason,
  InvocationRecord, Lease, Transition, TransitionStatus, fence_status,
}
use crypto_radar.Invocation.Store.{Store, Work, Connection}
use crypto_radar.Invocation.Store.Ready.{IsReady, write_ready}
use crypto_radar.Invocation.Holder.{
  outcome, act_on, holder_work, fenced_update, finish, ended, record_attempt, complete_invocation,
  release_invocation,
}

abbrev attempts_of : Option InvocationRecord → Option ℕ
attempts_of none = none
attempts_of (some r) = some r.attempt_count

-- The answer that names why a lease may not act.
abbrev pub refusal : Lease → Instant → Store → Transition
refusal lease now s =
    let row = lookup lease.invocation_id s.invocations in
    outcome (fence_status row lease now) lease.invocation_id (attempts_of row)

fence_missing :
    (lease : Lease) (now : Instant) → fence_status none lease now ≡ TransitionStatus.not_found
unfolding fence_status
fence_missing lease now = refl

act_on_refused :
    (status : TransitionStatus) (r : InvocationRecord) (apply : InvocationRecord → Work Transition)
    (s : Store)
    → status ≢ TransitionStatus.applied
    → act_on status r apply s ≡ ok (outcome status r.invocation_id (some r.attempt_count), s)
act_on_refused status r apply s h = ground arith

module _ (s : Store)
    (keyed : (id : String) (r : InvocationRecord)
      → lookup id s.invocations ≡ some r
      → r.invocation_id ≡ id) where
  work_refused :
      (lease : Lease) (now : Instant) (apply : InvocationRecord → Work Transition)
      → fence_status (lookup lease.invocation_id s.invocations) lease now ≢ TransitionStatus.applied
      → holder_work lease now apply s ≡ ok (refusal lease now s, s)
  unfolding holder_work
  work_refused lease now apply h = elim (Option-cases (lookup lease.invocation_id s.invocations)) [
    | inl missing ↦ ground (arith, fence_missing lease now)
    | inr (r, found) ↦
        let status = fence_status (some r) lease now in
        let e : holder_work lease now apply s ≡ act_on status r apply s = ground arith in
        let e' : act_on status r apply s
            ≡ ok (outcome status r.invocation_id (some r.attempt_count), s) =
          act_on_refused status r apply s (rw found at h) in
        ground (arith, e, e', keyed lease.invocation_id r found)
  ]

-- The row of an id has ended with a state, a reason and a time and is else as it was, no lease passes
-- its fence any more, and all else stands.
pub record IsEnded (id : String) (r : InvocationRecord) (state : InvocationState)
    (reason : Option ReleaseReason) (now : Instant) (s left : Store) : Type 0 where
  pub row :
      lookup id left.invocations
      ≡ some
          (record r { state = state; updated_at = now; ended_at = some now; end_reason = reason })
  pub others : (id' : String) → id' ≢ id → lookup id' left.invocations ≡ lookup id' s.invocations
  pub budget : left.budget ≡ s.budget
  pub demand : left.demand ≡ s.demand
  pub closed :
      (any : Lease) (later : Instant)
      → fence_status (lookup id left.invocations) any later ≢ TransitionStatus.applied

closed_fence :
    (r : InvocationRecord) (any : Lease) (later : Instant)
    → is_active r.state ≡ false
    → fence_status (some r) any later ≢ TransitionStatus.applied
unfolding fence_status
closed_fence r any later closed e = ground arith

module _ (lease : Lease) (now : Instant) (r : InvocationRecord) (s : Store) where
  -- A lease that passes the fence names the row as the update does.
  update_applies :
      (change : InvocationRecord → InvocationRecord)
      → lookup lease.invocation_id s.invocations ≡ some r
      → fence_status (some r) lease now ≡ TransitionStatus.applied
      → holder_work lease now (finish lease change) s
        ≡ ok (
          outcome TransitionStatus.applied r.invocation_id (some r.attempt_count),
          record s { invocations = insert lease.invocation_id (change r) s.invocations },
        )
  unfolding holder_work fenced_update fence_status
  update_applies change found h = ground arith

  passes :
      r.invocation_id ≡ lease.invocation_id
      → is_active r.state ≡ true
      → r.generation ≡ lease.generation
      → r.lease_owner ≡ lease.owner
      → now < r.lease_expires_at
      → fence_status (some r) lease now ≡ TransitionStatus.applied
  unfolding fence_status
  passes id active generation owner live =
      ground (arith, eq_iff r.invocation_id lease.invocation_id, eq_iff r.lease_owner lease.owner)

  -- The row as an update has left it ends there, and nothing else has changed.
  ended-IsEnded :
      (state : InvocationState) (reason : Option ReleaseReason)
      → is_active state ≡ false
      → IsEnded lease.invocation_id r state reason now s (record s {
        invocations = insert lease.invocation_id (ended state reason now r) s.invocations;
      })
  ended-IsEnded state reason closed =
      let stored =
        lookup-insert lease.invocation_id lease.invocation_id (ended state reason now r)
          s.invocations in
      let row : lookup lease.invocation_id
            (insert lease.invocation_id (ended state reason now r) s.invocations)
          ≡ some (ended state reason now r) =
        ground (arith, stored, eq_iff lease.invocation_id lease.invocation_id) in
      record {
        row = row;
        others = λ id other. ground (
          arith,
          lookup-insert lease.invocation_id id (ended state reason now r) s.invocations,
          eq_iff lease.invocation_id id,
          other,
        );
        budget = refl;
        demand = refl;
        closed = λ any later. rw row (closed_fence (ended state reason now r) any later closed);
      }

  -- On a ready connection, an unexpired lease with the generation and the owner of the active row
  -- of its id ends this row: completion and release answer `applied` and leave the row with its
  -- final state, its reason, and the moment as its end and its last update, and all else as it was;
  -- no lease passes the fence of the row any more.
  pub end_applies :
      (c : Connection) (reason : ReleaseReason)
      → IsReady c
      → lookup lease.invocation_id s.invocations ≡ some r
      → r.invocation_id ≡ lease.invocation_id
      → is_active r.state ≡ true
      → r.generation ≡ lease.generation
      → r.lease_owner ≡ lease.owner
      → now < r.lease_expires_at
      → ((left : Store) × (complete_invocation c lease now s
            ≡ ok (outcome TransitionStatus.applied r.invocation_id (some r.attempt_count), left))
          × IsEnded lease.invocation_id r completed none now s left)
        × ((left : Store) × (release_invocation c lease reason now s
              ≡ ok (outcome TransitionStatus.applied r.invocation_id (some r.attempt_count), left))
            × IsEnded lease.invocation_id r released (some reason) now s left)
  unfolding complete_invocation release_invocation
  end_applies c reason ready found id active generation owner live =
      let h = passes id active generation owner live in
      (
        (
          _,
          write_ready c (holder_work lease now (finish lease (ended completed none now))) s ready
              ∙ update_applies (ended completed none now) found h,
          ended-IsEnded completed none refl,
        ),
        (
          _,
          write_ready c (holder_work lease now (finish lease (ended released (some reason) now))) s
                ready
              ∙ update_applies (ended released (some reason) now) found h,
          ended-IsEnded released (some reason) refl,
        ),
      )

-- On a ready connection, with each row under its own id, a lease that the fence refuses changes
-- nothing: recording an attempt, completing and releasing all leave the tables as they are, and
-- answer the status of the fence and the attempts of the row.
pub refused_unchanged :
    (c : Connection) (lease : Lease) (b : ModelBudget) (reason : ReleaseReason) (now : Instant)
    (s : Store)
    → IsReady c
    → ((id : String) (r : InvocationRecord)
        → lookup id s.invocations ≡ some r
        → r.invocation_id ≡ id)
    → fence_status (lookup lease.invocation_id s.invocations) lease now ≢ TransitionStatus.applied
    → (record_attempt c lease b now s ≡ ok (refusal lease now s, s))
      × (complete_invocation c lease now s ≡ ok (refusal lease now s, s))
      × (release_invocation c lease reason now s ≡ ok (refusal lease now s, s))
unfolding record_attempt complete_invocation release_invocation
refused_unchanged c lease b reason now s ready keyed h = (
  write_ready c _ s ready ∙ work_refused s keyed lease now _ h,
  write_ready c _ s ready ∙ work_refused s keyed lease now _ h,
  write_ready c _ s ready ∙ work_refused s keyed lease now _ h,
)
