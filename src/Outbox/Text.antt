-- ===== src/Outbox/Text.antt =====
-- The patterns that radar_v08/adapters/outbox_store.py matches its identifiers, roles and codes with.
use crypto_radar.Base.{
  ℕ, String, Bool, true, false, ◌&&◌, ◌||◌, Option, none, some, List, [], ◌∷◌, leb, ltb, nat_beq,
  all, any, not, length,
}
use crypto_radar.Invocation.Text.{codes, is_space}

abbrev is_lower : ℕ → Bool
is_lower c = leb b'a' c && leb c b'z'

abbrev is_upper : ℕ → Bool
is_upper c = leb b'A' c && leb c b'Z'

abbrev is_digit : ℕ → Bool
is_digit c = leb b'0' c && leb c b'9'

abbrev is_alphanumeric : ℕ → Bool
is_alphanumeric c = is_lower c || is_upper c || is_digit c

abbrev is_safe : ℕ → Bool
is_safe c =
    is_alphanumeric c || nat_beq c b'.' || nat_beq c b'_' || nat_beq c b':' || nat_beq c b'-'

-- A character of one class and at most so many more of another.
abbrev fullmatch : (ℕ → Bool) → (ℕ → Bool) → ℕ → List ℕ → Bool
fullmatch first more limit [] = false
fullmatch first more limit (c ∷ cs) = first c && all more cs && leb (length cs) limit

-- `_IDENTIFIER.fullmatch`
unfoldable pub is_identifier : String → Bool
is_identifier t = fullmatch is_alphanumeric is_safe 127 (codes t)

-- `_ROLE.fullmatch` and `_CODE.fullmatch`, which are the same pattern
unfoldable pub is_role : String → Bool
is_role t = fullmatch is_lower (λ c. is_lower c || is_digit c || nat_beq c b'_') 63 (codes t)

abbrev pub optionally : (String → Bool) → Option String → Bool
optionally p none = true
optionally p (some t) = p t

-- The end blanks that `strip` removes.
abbrev ends_blank : List ℕ → Bool
ends_blank [] = false
ends_blank (c ∷ []) = is_space c
ends_blank (c ∷ d ∷ cs) = ends_blank (d ∷ cs)

abbrev starts_blank : List ℕ → Bool
starts_blank [] = false
starts_blank (c ∷ cs) = is_space c

-- `_consumer`: from 1 to 1024 characters, none of them a control one and no blank at an end
unfoldable pub is_name : String → Bool
is_name t =
    let cs = codes t in
    leb 1 (length cs)
    && leb (length cs) 1_024
    && not (starts_blank cs || ends_blank cs)
    && not (any (λ c. ltb c 32 || nat_beq c 127) cs)
