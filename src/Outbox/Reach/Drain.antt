-- ===== src/Outbox/Reach/Drain.antt =====
-- A consumer that reads a batch, handles it, acknowledges its last row, and goes on.
use crypto_radar.Base.{
  ℕ, ◌+◌, ◌-◌, ◌≤◌, zero, suc, String, ◌≡◌, refl, sym, ◌∙◌, ap, true, false, List, [], ◌∷◌, ◌++◌,
  arith, length, length-append,
}
use mathlib.Core.Path.{subst}
use mathlib.Core.List.{append_assoc}
use crypto_radar.Base.Equality.{string_eq}
use crypto_radar.Base.Dict.{lookup, lookup-insert}
use crypto_radar.Base.Result.{ok, ◌>>=◌}
use crypto_radar.Invocation.Lease.{Instant}
use crypto_radar.Invocation.Store.{Connection}
use crypto_radar.Outbox.Text.{is_name}
use crypto_radar.Outbox.Table.{
  OutboxEntry, Cursor, Store, Work, tries, write, read, last_seq, entries_after,
}
use crypto_radar.Outbox.Consumer.{
  position_of, read_pending, acknowledge, offset_of, acknowledge_work, save_cursor, take,
  valid_limit,
}
use crypto_radar.Outbox.Log.{IsNumbered, last_seq-length, entries_after-append}
use crypto_radar.Outbox.Sound.{IsSound}
use text.Mathlib.TextEquality.{eq_iff}

abbrev final : OutboxEntry → List OutboxEntry → OutboxEntry
final r [] = r
final r (x ∷ xs) = final x xs

abbrev drop {ℓ} : {A : Type ℓ} → ℕ → List A → List A
drop zero xs = xs
drop (suc n) [] = []
drop (suc n) (x ∷ xs) = drop n xs

take-drop {ℓ} : {A : Type ℓ} (n : ℕ) (xs : List A) → take n xs ++ drop n xs ≡ xs
take-drop zero xs = refl
take-drop (suc n) [] = refl
take-drop (suc n) (x ∷ xs) = ap (λ l. x ∷ l) (take-drop n xs)

length-drop {ℓ} : {A : Type ℓ} (n : ℕ) (xs : List A) → length (drop n xs) ≤ length xs
length-drop zero xs = omega arith
length-drop (suc n) [] = omega arith
length-drop (suc n) (x ∷ xs) = omega (arith, length-drop n xs)

final-seq :
    (n : ℕ) (r : OutboxEntry) (rs : List OutboxEntry)
    → IsNumbered n (r ∷ rs)
    → (final r rs).seq ≡ n + length (r ∷ rs)
final-seq n r [] h = ground (arith, h)
final-seq n r (x ∷ xs) h = omega (arith, final-seq (n + 1) x xs h.1)

IsNumbered-front : (n : ℕ) (xs ys : List OutboxEntry) → IsNumbered n (xs ++ ys) → IsNumbered n xs
IsNumbered-front n [] ys h = tt
IsNumbered-front n (x ∷ xs) ys h = (h.0, IsNumbered-front (n + 1) xs ys h.1)

IsNumbered-rest :
    (n : ℕ) (xs ys : List OutboxEntry) → IsNumbered n (xs ++ ys) → IsNumbered (n + length xs) ys
IsNumbered-rest n [] ys h = subst (λ k. IsNumbered k ys) (omega arith) h
IsNumbered-rest n (x ∷ xs) ys h =
    subst (λ k. IsNumbered k ys) (omega arith) (IsNumbered-rest (n + 1) xs ys h.1)

module _ (c : Connection) (name : String) (limit : ℕ) (now : Instant) where
  -- The end of a round: the last row of a batch is acknowledged, and the rounds go on.
  abbrev after_batch : (Work (List OutboxEntry)) → List OutboxEntry → Work (List OutboxEntry)
  after_batch more [] s = ok ([], s)
  after_batch more (r ∷ rs) s = do
    (_, t) ← acknowledge c name (final r rs).seq now s
    (rest, u) ← more t
    ok ((r ∷ rs) ++ rest, u)

  -- At most so many rounds of the consumer, and the rows it has handled.
  unfoldable pub drain : ℕ → Work (List OutboxEntry)
  drain zero s = ok ([], s)
  drain (suc k) s = do batch ← read_pending c name limit s; after_batch (drain k) batch s

  -- The rows before the cursor and those after it.
  record IsAt (xs ys : List OutboxEntry) (s : Store) : Type 0 where
    pub log : s.outbox ≡ xs ++ ys
    pub numbered : IsNumbered 0 (xs ++ ys)
    pub position : position_of name s ≡ length xs

  pending_at :
      (xs ys : List OutboxEntry) (s : Store)
      → IsAt xs ys s
      → entries_after (position_of name s) s.outbox ≡ ys
  pending_at xs ys s h =
      rw (h.position, h.log)
        (subst (λ k. entries_after k (xs ++ ys) ≡ ys) (omega arith)
          (entries_after-append 0 xs ys h.numbered))

  module _ (closed : c.in_transaction ≡ false) (migrated : c.migrated ≡ true)
      (free : c.busy_tries ≡ 0) (named : is_name name ≡ true)
      (bounded : valid_limit limit ≡ true) where
    read_at :
        (xs ys : List OutboxEntry) (s : Store)
        → IsAt xs ys s
        → read_pending c name limit s ≡ ok (take limit ys)
    unfolding read_pending read
    read_at xs ys s h = ground (arith, migrated, free, named, bounded, pending_at xs ys s h)

    acknowledged :
        (xs : List OutboxEntry) (r : OutboxEntry) (rs ys : List OutboxEntry) (s : Store)
        → IsAt xs ((r ∷ rs) ++ ys) s
        → (t : Store) × (acknowledge c name (final r rs).seq now s ≡ ok ((final r rs).seq, t))
          × IsAt (xs ++ r ∷ rs) ys t
          × (t.outbox ≡ s.outbox)
    unfolding acknowledge acknowledge_work write tries save_cursor position_of
    acknowledged xs r rs ys s h =
        let n = (final r rs).seq in
        let old = lookup name s.cursors in
        let row : Cursor = record { position = n; byte_offset = offset_of old; updated_at = now } in
        let t = save_cursor name n (offset_of old) now s in
        let mine = IsNumbered-rest 0 xs ((r ∷ rs) ++ ys) h.numbered in
        let n_is : n ≡ 0 + length xs + length (r ∷ rs) =
          final-seq (0 + length xs) r rs (IsNumbered-front (0 + length xs) (r ∷ rs) ys mine) in
        let total : last_seq s.outbox ≡ length xs + (length (r ∷ rs) + length ys) = ground (
          arith,
          h.log,
          last_seq-length 0 (xs ++ ((r ∷ rs) ++ ys)) h.numbered,
          length-append xs ((r ∷ rs) ++ ys),
          length-append rs ys,
        ) in
        let regroup : (xs ++ r ∷ rs) ++ ys ≡ xs ++ ((r ∷ rs) ++ ys) = append_assoc xs (r ∷ rs) ys in
        (
          t,
          ground (arith, closed, migrated, free, named, n_is, total, h.position),
          record {
            log = h.log ∙ sym regroup;
            numbered = subst (IsNumbered 0) (sym regroup) h.numbered;
            position = ground (
              arith,
              n_is,
              length-append xs (r ∷ rs),
              lookup-insert name name row s.cursors,
              eq_iff name name,
            );
          },
          refl,
        )

    positive : (m : ℕ) × (limit ≡ suc m)
    positive = (limit - 1, ground (arith, bounded))

    drained :
        (k : ℕ) (xs ys : List OutboxEntry) (s : Store)
        → length ys ≤ k
        → IsAt xs ys s
        → (t : Store) × (drain k s ≡ ok (ys, t))
          × (entries_after (position_of name t) t.outbox ≡ [])
          × (t.outbox ≡ s.outbox)
    unfolding drain
    drained zero xs [] s le h = (s, refl, pending_at xs [] s h, refl)
    drained zero xs (y ∷ ys) s le h = absurd (omega (arith, le))
    drained (suc k) xs [] s le h =
        let (m, e) = positive in
        let empty_batch : read_pending c name limit s ≡ ok [] =
          ground (arith, e, read_at xs [] s h) in
        (s, ground (arith, empty_batch), pending_at xs [] s h, refl)
    drained (suc k) xs (y ∷ ys) s le h =
        let (m, e) = positive in
        let batch = take m ys in
        let rest = drop m ys in
        let whole : (y ∷ batch) ++ rest ≡ y ∷ ys = ap (λ l. y ∷ l) (take-drop m ys) in
        let got : read_pending c name limit s ≡ ok (y ∷ batch) =
          read_at xs (y ∷ ys) s h ∙ ap (λ l. ok (take l (y ∷ ys))) e in
        let (t, acked, at_t, same) =
          acknowledged xs y batch rest s (subst (λ l. IsAt xs l s) (sym whole) h) in
        let (u, goes, empty_u, same_u) =
          drained k (xs ++ y ∷ batch) rest t (omega (arith, le, length-drop m ys)) at_t in
        (u, ground (arith, got, acked, goes, whole), empty_u, same_u ∙ same)

length-take {ℓ} : {A : Type ℓ} (n : ℕ) (xs : List A) → n ≤ length xs → length (take n xs) ≡ n
length-take zero xs h = refl
length-take (suc n) [] h = omega (arith, h)
length-take (suc n) (x ∷ xs) h = omega (arith, length-take n xs (omega (arith, h)))

-- From sound tables, on a ready and idle connection, a consumer with a valid name and limit that
-- reads a batch and acknowledges its last row, for at least as many rounds as the outbox has rows,
-- handles exactly the rows after its cursor, in their order; then none is pending, and the outbox
-- is as it was.
pub drain_all :
    (c : Connection) (name : String) (limit : ℕ) (now : Instant) (k : ℕ) (s : Store)
    → c.in_transaction ≡ false
    → c.migrated ≡ true
    → c.busy_tries ≡ 0
    → is_name name ≡ true
    → valid_limit limit ≡ true
    → IsSound s
    → length s.outbox ≤ k
    → (t : Store) × (drain c name limit now k s
        ≡ ok (entries_after (position_of name s) s.outbox, t))
      × (entries_after (position_of name t) t.outbox ≡ [])
      × (t.outbox ≡ s.outbox)
drain_all c name limit now k s closed migrated free named bounded h le =
    let p = position_of name s in
    let before = take p s.outbox in
    let behind = drop p s.outbox in
    let whole : before ++ behind ≡ s.outbox = take-drop p s.outbox in
    let near : p ≤ length s.outbox =
      ground (arith, h.known name, last_seq-length 0 s.outbox h.numbered) in
    let at_s : IsAt c name limit now before behind s = record {
      log = sym whole;
      numbered = subst (IsNumbered 0) (sym whole) h.numbered;
      position = sym (length-take p s.outbox near);
    } in
    let (t, goes, done, same) =
      drained c name limit now closed migrated free named bounded k before behind s
        (omega (arith, le, length-drop p s.outbox)) at_s in
    (t, rw (pending_at c name limit now before behind s at_s) goes, done, same)
