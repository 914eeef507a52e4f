-- ===== src/Outbox/Export/Once.antt =====
-- An export that is repeated before its cursor is saved, as after a crash.
use mathlib.Core.Path.{subst}
use crypto_radar.Base.{
  ℕ, ◌≤◌, ◌≡◌, ◌∙◌, inl, inr, refl, sym, ap, arith, true, false, ◌||◌, Option, some, List, [], ◌∷◌,
  ◌++◌, length, All, All-map, Bool-cases, Option-cases, length-append,
}
use crypto_radar.Base.Result.{ok, Gives, Gives_at, bind_returned, ok_value}
use crypto_radar.Outbox.Table.{OutboxEntry, DeliveryId}
use crypto_radar.Outbox.Export.{
  File, drop, split_lines, is_torn, whole_lines, is_in, ids_of, delivery_ids_in, lines_of,
  append_lines, append_file,
}
use crypto_radar.Outbox.Export.Lines.{is_on}
use crypto_radar.Outbox.Export.Written.{
  IsLine, AllLines, IsKept, lines-IsKept, all_known, body_whole, kept_on, joined, line_ends,
  append_nil,
}

module _ (line : OutboxEntry → Option File) (read_id : File → Option DeliveryId) where
  module _ (lawful : (r : OutboxEntry) (l : File) → line r ≡ some l → IsLine line read_id r l) where
    -- The rows have their lines, one each.
    abbrev HasLines : List OutboxEntry → List (OutboxEntry × File) → Type 0
    HasLines rs xs = AllLines line read_id xs × (length xs ≡ length rs)

    lines_of_lem : (rs : List OutboxEntry) → Gives (HasLines rs) (lines_of line read_id rs)
    unfolding lines_of
    lines_of_lem [] = (tt, refl)
    lines_of_lem (r ∷ rs) = elim (Option-cases (line r)) [
      | inl e ↦ ground (arith, e)
      | inr (l, e) ↦ ground (arith, e, lawful r l e, lines_of_lem rs)
    ]

    -- A part of the file that the cursor's offset leaves is read from there.
    part_read :
        (file : File) (offset : ℕ)
        → offset ≤ length file
        → delivery_ids_in line read_id file offset
          ≡ ids_of line read_id (split_lines (drop offset file))
    unfolding delivery_ids_in
    part_read file offset le = ground arith

    whole_longer :
        (file body : File) (offset : ℕ)
        → offset ≤ length file
        → offset ≤ length (whole_lines file ++ body)
    whole_longer file body offset le =
        ground (arith, length-append (whole_lines file) body, length-append file (10 ∷ []))

    second_append :
        (xs : List (OutboxEntry × File)) (offset : ℕ) (file body : File)
        → AllLines line read_id xs
        → offset ≤ length file
        → body ≡ (append_lines line read_id xs (delivery_ids_in line read_id file offset)).0
        → append_lines line read_id xs
            (delivery_ids_in line read_id (whole_lines file ++ body) offset)
          ≡ ([], 0, length xs)
    second_append xs offset file body h le e =
        let seen = delivery_ids_in line read_id file offset in
        let kept : All (IsKept line read_id seen body) xs =
          subst (λ b. All (IsKept line read_id seen b) xs) (sym e)
            (lines-IsKept line read_id xs seen h) in
        all_known line read_id xs _ (
          All-map (IsKept line read_id seen body)
            (λ x.
              is_in x.0.delivery_id (delivery_ids_in line read_id (whole_lines file ++ body) offset)
              ≡ true)
            xs
            (λ x k.
              ap (is_in x.0.delivery_id)
                (part_read (whole_lines file ++ body) offset (whole_longer file body offset le))
              ∙ kept_on line read_id x.0.delivery_id offset file body le (
                  subst
                    (λ ids.
                      (is_in x.0.delivery_id ids || is_on line read_id x.0.delivery_id body) ≡ true)
                    (part_read file offset le) k))
            kept)

    -- Nothing is torn in what an append leaves.
    left_whole :
        (xs : List (OutboxEntry × File)) (seen : List DeliveryId) (file : File)
        → is_torn (whole_lines file ++ (append_lines line read_id xs seen).0) ≡ false
    left_whole xs seen file =
        joined (whole_lines file) _ (line_ends file (Bool-cases (is_torn file)))
          (body_whole line read_id xs seen)

    -- An append to the file it has left writes no line, where the offset is within the file.
    pub export_once :
        (file left : File) (entries : List OutboxEntry) (offset written skipped : ℕ)
        → offset ≤ length file
        → append_file line read_id file entries offset ≡ ok (left, written, skipped)
        → append_file line read_id left entries offset ≡ ok (left, 0, length entries)
    unfolding append_file
    export_once file left entries offset written skipped le h =
        let (xs, is, out) = bind_returned (lines_of line read_id entries) _ _ h in
        let held = Gives_at (HasLines entries) xs is (lines_of_lem entries) in
        let seen = delivery_ids_in line read_id file offset in
        let body = (append_lines line read_id xs seen).0 in
        let made : whole_lines file ++ body ≡ left = ap (λ x. x.0) (ok_value out) in
        let again : append_lines line read_id xs (delivery_ids_in line read_id left offset)
            ≡ ([], 0, length xs) =
          subst
            (λ l.
              append_lines line read_id xs (delivery_ids_in line read_id l offset)
              ≡ ([], 0, length xs))
            made (second_append xs offset file body held.0 le refl) in
        let clean : is_torn left ≡ false =
          subst (λ l. is_torn l ≡ false) made (left_whole xs seen file) in
        ground (arith, is, again, clean, append_nil left, held.1)
