-- ===== src/Invocation/Text.antt =====
-- `_require_text` of radar_v08/domain/invocation.py and radar_v08/workflow/scheduler.py: the text
-- fields of identities, owners and item ids.
use Prim.Native.Char.{code}
use crypto_radar.Base.{
  ℕ, String, Bool, true, false, ◌&&◌, ◌||◌, not, List, [], ◌∷◌, ltb, leb, nat_beq, any, length,
}

-- The code points of a text.
abbrev pub codes : String → List ℕ
codes String.[] = []
codes (String.◌∷◌ c s) = code c ∷ codes s

-- `str.isspace` of one character: what `str.strip` takes off.
unfoldable pub is_space : ℕ → Bool
is_space c =
    (leb 0x09 c && leb c 0x0d)
    || (leb 0x1c c && leb c 0x20)
    || nat_beq c 0x85
    || nat_beq c 0xa0
    || nat_beq c 0x1680
    || (leb 0x2000 c && leb c 0x200a)
    || nat_beq c 0x2028
    || nat_beq c 0x2029
    || nat_beq c 0x202f
    || nat_beq c 0x205f
    || nat_beq c 0x3000

abbrev starts_blank : List ℕ → Bool
starts_blank [] = false
starts_blank (c ∷ cs) = is_space c

abbrev ends_blank : List ℕ → Bool
ends_blank [] = false
ends_blank (c ∷ []) = is_space c
ends_blank (c ∷ d ∷ cs) = ends_blank (d ∷ cs)

abbrev is_empty : List ℕ → Bool
is_empty [] = true
is_empty (c ∷ cs) = false

abbrev is_control : ℕ → Bool
is_control c = ltb c 32 || nat_beq c 127

abbrev pub max_text_length : ℕ
max_text_length = 200

-- `value == value.strip()` holds when neither end is blank.
unfoldable pub valid_text : String → Bool
unfolding is_space
valid_text value =
    let cs = codes value in
    not (is_empty cs)
    && not (starts_blank cs || ends_blank cs)
    && leb (length cs) max_text_length
    && not (any is_control cs)
