-- ===== src/Outbox/Export/Written.antt =====
-- What the lines that are written to a file are read as.
use mathlib.Core.Path.{subst}
use text.Mathlib.TextEquality.{eq_iff}
use crypto_radar.Base.{
  ℕ, ◌≤◌, ◌≡◌, ◌∙◌, ◌⊎◌, inl, inr, refl, sym, ap, arith, true, false, ◌||◌, not, Option, some, List,
  [], ◌∷◌, ◌++◌, nat_beq, length, all, All, All-map, Bool-cases,
}
use crypto_radar.Outbox.Table.{
  OutboxEntry, DeliveryId, event_id, lifecycle_id, handoff_id, delivery_eq,
}
use crypto_radar.Outbox.Lifecycle.{LifecycleState, state_eq}
use crypto_radar.Outbox.Export.{File, drop, is_blank, is_torn, whole_lines, is_in, append_lines}
use crypto_radar.Outbox.Export.Lines.{
  append_assoc, split_lines-single, drop-append, whole_file, is_torn-append, is_torn-drop, is_on,
  is_on-append,
}

state_refl : (a : LifecycleState) → state_eq a a ≡ true
state_refl a = ground arith

delivery_refl : (id : DeliveryId) → delivery_eq id id ≡ true
delivery_refl (event_id a n) = ground (arith, eq_iff a a)
delivery_refl (lifecycle_id a s) = ground (arith, eq_iff a a, state_refl s)
delivery_refl (handoff_id a) = ground (arith, eq_iff a a)

ended : (body : File) → is_torn body ≡ false → is_torn (10 ∷ body) ≡ false
ended [] h = refl
ended (x ∷ xs) h = h

pub append_nil : (xs : File) → xs ++ [] ≡ xs
append_nil [] = refl
append_nil (x ∷ xs) = ap (λ l. x ∷ l) (append_nil xs)

pub joined : (xs ys : File) → is_torn xs ≡ false → is_torn ys ≡ false → is_torn (xs ++ ys) ≡ false
joined [] ys h k = k
joined (x ∷ []) [] h k = h
joined (x ∷ []) (y ∷ ys) h k = k
joined (x ∷ z ∷ xs) ys h k = joined (z ∷ xs) ys h k

pub line_ends :
    (file : File)
    → (is_torn file ≡ true) ⊎ (is_torn file ≡ false)
    → is_torn (whole_lines file) ≡ false
line_ends file (inl torn) = rw torn (is_torn-append file 10 [])
line_ends file (inr clean) = rw clean clean

module _ (line : OutboxEntry → Option File) (read_id : File → Option DeliveryId) where
  -- The line of a row is one line, and is read as the id of the row.
  pub record IsLine (r : OutboxEntry) (l : File) : Type 0 where
    pub read : read_id l ≡ some r.delivery_id
    pub visible : is_blank l ≡ false
    pub whole : all (λ x. not (nat_beq x 10)) l ≡ true

  abbrev pub AllLines : List (OutboxEntry × File) → Type 0
  AllLines xs = All (λ x. IsLine x.0 x.1) xs

  -- The id is one of those seen, or stands in what is written.
  abbrev pub IsKept : List DeliveryId → File → OutboxEntry × File → Type 0
  IsKept seen body x =
      (is_in x.0.delivery_id seen || is_on line read_id x.0.delivery_id body) ≡ true

  append_known :
      (r : OutboxEntry) (l : File) (xs : List (OutboxEntry × File)) (seen : List DeliveryId)
      → is_in r.delivery_id seen ≡ true
      → (append_lines line read_id ((r, l) ∷ xs) seen).0 ≡ (append_lines line read_id xs seen).0
  unfolding append_lines
  append_known r l xs seen h = rw h refl

  append_new :
      (r : OutboxEntry) (l : File) (xs : List (OutboxEntry × File)) (seen : List DeliveryId)
      → is_in r.delivery_id seen ≡ false
      → (append_lines line read_id ((r, l) ∷ xs) seen).0
        ≡ l ++ (10 ∷ (append_lines line read_id xs (r.delivery_id ∷ seen)).0)
  unfolding append_lines
  append_new r l xs seen h = rw h refl

  line_on :
      (r : OutboxEntry) (l body : File) (id : DeliveryId)
      → IsLine r l
      → is_on line read_id id (l ++ (10 ∷ body))
        ≡ (delivery_eq id r.delivery_id || is_on line read_id id body)
  line_on r l body id h =
      ground (
        arith,
        is_on-append line read_id id l body,
        split_lines-single l h.whole,
        h.read,
        h.visible,
      )

  pub lines-IsKept :
      (xs : List (OutboxEntry × File)) (seen : List DeliveryId)
      → AllLines xs
      → All (IsKept seen (append_lines line read_id xs seen).0) xs
  lines-IsKept [] seen h = tt
  lines-IsKept ((r, l) ∷ xs) seen h = elim (Bool-cases (is_in r.delivery_id seen)) [
    | inl known ↦
        subst (λ body. All (IsKept seen body) ((r, l) ∷ xs)) (sym (append_known r l xs seen known))
          (ground (arith, known), lines-IsKept xs seen h.1)
    | inr new ↦
        let body = (append_lines line read_id xs (r.delivery_id ∷ seen)).0 in
        subst (λ b. All (IsKept seen b) ((r, l) ∷ xs)) (sym (append_new r l xs seen new))
          (
            ground (arith, line_on r l body r.delivery_id h.0, delivery_refl r.delivery_id),
            All-map (IsKept (r.delivery_id ∷ seen) body) (IsKept seen (l ++ (10 ∷ body))) xs
                (λ x k. ground (arith, k, line_on r l body x.0.delivery_id h.0))
                (lines-IsKept xs (r.delivery_id ∷ seen) h.1),
          )
  ]

  pub all_known :
      (xs : List (OutboxEntry × File)) (seen : List DeliveryId)
      → All (λ x. is_in x.0.delivery_id seen ≡ true) xs
      → append_lines line read_id xs seen ≡ ([], 0, length xs)
  unfolding append_lines
  all_known [] seen h = refl
  all_known ((r, l) ∷ xs) seen h = ground (arith, h.0, all_known xs seen h.1)

  pub body_whole :
      (xs : List (OutboxEntry × File)) (seen : List DeliveryId)
      → is_torn (append_lines line read_id xs seen).0 ≡ false
  unfolding append_lines
  body_whole [] seen = refl
  body_whole ((r, l) ∷ xs) seen = elim (Bool-cases (is_in r.delivery_id seen)) [
    | inl known ↦ ap is_torn (append_known r l xs seen known) ∙ body_whole xs seen
    | inr new ↦
        let body = (append_lines line read_id xs (r.delivery_id ∷ seen)).0 in
        ap is_torn (append_new r l xs seen new)
        ∙ (is_torn-append l 10 body ∙ ended body (body_whole xs (r.delivery_id ∷ seen)))
  ]

  ended_on :
      (id : DeliveryId) (ys body : File)
      → (is_on line read_id id (ys ++ (10 ∷ [])) || is_on line read_id id body) ≡ true
      → (is_on line read_id id ys || is_on line read_id id body) ≡ true
  ended_on id ys body h = ground (arith, h, is_on-append line read_id id ys [])

  clean_on :
      (id : DeliveryId) (part body : File)
      → is_torn part ≡ false
      → (is_on line read_id id part || is_on line read_id id body) ≡ true
      → is_on line read_id id (part ++ body) ≡ true
  clean_on id part body clean h = elim (whole_file part clean) [
    | inl e ↦
        subst (λ p. is_on line read_id id (p ++ body) ≡ true) (sym e)
          (subst (λ p. (is_on line read_id id p || is_on line read_id id body) ≡ true) e h)
    | inr (ys, e) ↦
        subst (λ p. is_on line read_id id (p ++ body) ≡ true) (sym e)
          (ap (is_on line read_id id) (append_assoc ys (10 ∷ []) body)
            ∙ (is_on-append line read_id id ys body
                ∙ ended_on id ys body (
                    subst (λ p. (is_on line read_id id p || is_on line read_id id body) ≡ true) e
                      h)))
  ]

  -- What was on the part that was read, or is in what was added, is on the part as it is then.
  pub kept_on :
      (id : DeliveryId) (offset : ℕ) (file body : File)
      → offset ≤ length file
      → (is_on line read_id id (drop offset file) || is_on line read_id id body) ≡ true
      → is_on line read_id id (drop offset (whole_lines file ++ body)) ≡ true
  kept_on id offset file body le h = elim (Bool-cases (is_torn file)) [
    | inl torn ↦
        let part : drop offset (whole_lines file ++ body) ≡ drop offset file ++ (10 ∷ body) =
          rw torn (
            ap (drop offset) (append_assoc file (10 ∷ []) body)
            ∙ drop-append offset file (10 ∷ body) le) in
        ap (is_on line read_id id) part ∙ (is_on-append line read_id id (drop offset file) body ∙ h)
    | inr clean ↦
        let part : drop offset (whole_lines file ++ body) ≡ drop offset file ++ body =
          rw clean (drop-append offset file body le) in
        ap (is_on line read_id id) part
        ∙ clean_on id (drop offset file) body (is_torn-drop offset file clean) h
  ]
