-- ===== src/Outbox/Export/Lines.antt =====
-- The lines of a file that more is written to.
use crypto_radar.Base.{
  ℕ, zero, suc, ◌≤◌, ◌≡◌, ◌∙◌, ◌⊎◌, inl, inr, refl, ap, arith, Bool, true, false, ◌||◌, not, Option,
  List, [], ◌∷◌, ◌++◌, nat_beq, length, all, Bool-cases,
}
use crypto_radar.Outbox.Table.{OutboxEntry, DeliveryId}
use crypto_radar.Outbox.Export.{File, drop, split_lines, is_torn, is_in, ids_of}

pub append_assoc : (xs ys zs : File) → (xs ++ ys) ++ zs ≡ xs ++ (ys ++ zs)
append_assoc [] ys zs = refl
append_assoc (x ∷ xs) ys zs = ap (λ l. x ∷ l) (append_assoc xs ys zs)

has_line : (xs : File) → (l : File) × (ls : List File) × (split_lines xs ≡ l ∷ ls)
has_line [] = ([], [], refl)
has_line (x ∷ xs) =
    let (l, ls, e) = has_line xs in
    elim (Bool-cases (nat_beq x 10)) [
      | inl ends ↦ ([], split_lines xs, ground arith)
      | inr goes ↦ (x ∷ l, ls, ground (arith, e))
    ]

-- A byte that ends a line splits the file there.
pub split_lines-append :
    (xs ys : File) → split_lines (xs ++ (10 ∷ ys)) ≡ split_lines xs ++ split_lines ys
split_lines-append [] ys = refl
split_lines-append (x ∷ xs) ys =
    let (l, ls, e) = has_line xs in ground (arith, split_lines-append xs ys, e)

pub split_lines-single :
    (l : File) → all (λ x. not (nat_beq x 10)) l ≡ true → split_lines l ≡ l ∷ []
split_lines-single [] h = refl
split_lines-single (x ∷ xs) h = ground (arith, split_lines-single xs)

pub drop-append : (n : ℕ) (xs ys : File) → n ≤ length xs → drop n (xs ++ ys) ≡ drop n xs ++ ys
drop-append zero xs ys le = refl
drop-append (suc n) [] ys le = ground arith
drop-append (suc n) (x ∷ xs) ys le = drop-append n xs ys (omega (arith, le))

-- A file that does not end within a line is empty or ends with the end of one.
pub whole_file :
    (xs : File) → is_torn xs ≡ false → (xs ≡ []) ⊎ ((ys : File) × (xs ≡ ys ++ (10 ∷ [])))
whole_file [] h = inl refl
whole_file (x ∷ []) h = inr ([], ground arith)
whole_file (x ∷ y ∷ xs) h = elim (whole_file (y ∷ xs) h) [
  | inl e ↦ ground arith
  | inr (ys, e) ↦ inr (x ∷ ys, ap (λ l. x ∷ l) e)
]

pub is_torn-append : (xs : File) (y : ℕ) (ys : File) → is_torn (xs ++ (y ∷ ys)) ≡ is_torn (y ∷ ys)
is_torn-append [] y ys = refl
is_torn-append (x ∷ []) y ys = refl
is_torn-append (x ∷ z ∷ xs) y ys = is_torn-append (z ∷ xs) y ys

pub is_torn-drop : (n : ℕ) (xs : File) → is_torn xs ≡ false → is_torn (drop n xs) ≡ false
is_torn-drop zero xs h = h
is_torn-drop (suc n) [] h = refl
is_torn-drop (suc n) (x ∷ []) h = is_torn-drop n [] refl
is_torn-drop (suc n) (x ∷ y ∷ xs) h = is_torn-drop n (y ∷ xs) h

module _ (line : OutboxEntry → Option File) (read_id : File → Option DeliveryId) where
  -- The id is on a line of the file.
  abbrev pub is_on : DeliveryId → File → Bool
  is_on id file = is_in id (ids_of line read_id (split_lines file))

  is_in-append :
      (id : DeliveryId) (ls ms : List File)
      → is_in id (ids_of line read_id (ls ++ ms))
        ≡ (is_in id (ids_of line read_id ls) || is_in id (ids_of line read_id ms))
  is_in-append id [] ms = refl
  is_in-append id (l ∷ ls) ms = ground (arith, is_in-append id ls ms)

  pub is_on-append :
      (id : DeliveryId) (xs ys : File) → is_on id (xs ++ (10 ∷ ys)) ≡ (is_on id xs || is_on id ys)
  is_on-append id xs ys =
      ap (λ ls. is_in id (ids_of line read_id ls)) (split_lines-append xs ys)
      ∙ is_in-append id (split_lines xs) (split_lines ys)
