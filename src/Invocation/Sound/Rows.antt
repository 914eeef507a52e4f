-- ===== src/Invocation/Sound/Rows.antt =====
-- The search for an active row, and the writes to the table of rows.
use crypto_radar.Base.{
  String, ◌≡◌, Bool, true, false, ◌&&◌, none, some, List, [], ◌∷◌, arith, All, All-elem, Elem, here,
  there, inl, inr, Bool-cases,
}
use crypto_radar.Base.Equality.{◌==◌, string_eq}
use crypto_radar.Base.Dict.{Dict, values, lookup, insert, lookup-insert}
use crypto_radar.Base.Dict.Unique.{insert-IsUnique, All-values, elem-values}
use crypto_radar.Invocation.Identity.{InvocationIdentity, identity_eq_iff, identity_equality}
use crypto_radar.Invocation.Lease.{is_active, InvocationRecord}
use crypto_radar.Invocation.Claim.{find_active}
use crypto_radar.Invocation.Sound.{IsTable}
use text.Mathlib.TextEquality.{eq_iff}

abbrev Rows : Type 0
Rows = Dict String InvocationRecord

-- The row that an active identity is looked for with.
abbrev holds : InvocationIdentity → InvocationRecord → Bool
holds i r = is_active r.state && r.identity == i

pub find_active_none :
    (i : InvocationIdentity) (rs : List InvocationRecord)
    → find_active i rs ≡ none
    → All (λ r. holds i r ≡ false) rs
unfolding find_active
find_active_none i [] h = tt
find_active_none i (x ∷ rs) h = ground (arith, find_active_none i rs)

pub find_active-some :
    (i : InvocationIdentity) (rs : List InvocationRecord) {r : InvocationRecord}
    → find_active i rs ≡ some r
    → Elem r rs × (holds i r ≡ true)
unfolding find_active
find_active-some i [] h = ground arith
find_active-some i (x ∷ rs) h = elim (Bool-cases (holds i x)) [
  | inl holding ↦ (here (ground arith), ground arith)
  | inr other ↦ (let (m, a) = find_active-some i rs (ground arith) in (there m, a))
]

-- A row of the table is found under its own id.
elem-lookup :
    (d : Rows) {r : InvocationRecord}
    → IsTable d
    → Elem r (values d)
    → lookup r.invocation_id d ≡ some r
elem-lookup d {r} h m =
    All-elem (λ x. lookup x.invocation_id d ≡ some x) r m
      (All-values (λ x. lookup x.invocation_id d ≡ some x) d h.unique
        (λ id x found. ground (arith, h.keyed id x found)))

pub active_row :
    (i : InvocationIdentity) (d : Rows) {r : InvocationRecord}
    → IsTable d
    → find_active i (values d) ≡ some r
    → (lookup r.invocation_id d ≡ some r) × (is_active r.state ≡ true) × (r.identity ≡ i)
active_row i d {r} h found =
    let (m, a) = find_active-some i (values d) found in
    ground (arith, elem-lookup d h m, identity_eq_iff r.identity i)

pub no_active_row :
    (i : InvocationIdentity) (d : Rows) (id : String) (r : InvocationRecord)
    → find_active i (values d) ≡ none
    → lookup id d ≡ some r
    → holds i r ≡ false
no_active_row i d id r h found =
    All-elem (λ x. holds i x ≡ false) r (elem-values id d found) (find_active_none i (values d) h)

-- A new active row of an identity that no active row has.
pub new-IsTable :
    (r : InvocationRecord) (d : Rows)
    → IsTable d
    → lookup r.invocation_id d ≡ none
    → find_active r.identity (values d) ≡ none
    → IsTable (insert r.invocation_id r d)
new-IsTable r d h new fresh = record {
  unique = insert-IsUnique r.invocation_id r d h.unique;
  keyed = λ id x found.
      ground (arith, lookup-insert r.invocation_id id r d, eq_iff r.invocation_id id, h.keyed id x);
  exclusive = λ id id' x x' found found' a a' same. ground (
    arith,
    lookup-insert r.invocation_id id r d,
    lookup-insert r.invocation_id id' r d,
    eq_iff r.invocation_id id,
    eq_iff r.invocation_id id',
    h.exclusive id id' x x',
    no_active_row r.identity d id x fresh,
    no_active_row r.identity d id' x' fresh,
    identity_eq_iff x.identity r.identity,
    identity_eq_iff x'.identity r.identity,
  );
}

-- A row changed in place, without becoming active or another identity.
pub change-IsTable :
    (id : String) (r r' : InvocationRecord) (d : Rows)
    → IsTable d
    → lookup id d ≡ some r
    → r'.invocation_id ≡ r.invocation_id
    → r'.identity ≡ r.identity
    → (is_active r'.state ≡ true → is_active r.state ≡ true)
    → IsTable (insert id r' d)
change-IsTable id r r' d h there_is same same_identity live = record {
  unique = insert-IsUnique id r' d h.unique;
  keyed = λ j x found.
      ground (arith, lookup-insert id j r' d, eq_iff id j, h.keyed j x, h.keyed id r there_is);
  exclusive = λ j j' x x' found found' a a' e. ground (
    arith,
    lookup-insert id j r' d,
    lookup-insert id j' r' d,
    eq_iff id j,
    eq_iff id j',
    h.exclusive j j' x x',
    h.exclusive id j' r x' there_is,
    h.exclusive j id x r,
  );
}
