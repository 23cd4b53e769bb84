-- ===== src/Contract/Models/Identifiers.antt =====
-- src/psrc/contract/models.py: `Identifier` and the digest of an `ExecutionPlan`, patterns on texts.
use strategy_adapter.Prelude.{
  ℕ, String, Bool, true, false, Option, none, some, ◌&&◌, ◌||◌, List, [], ◌∷◌, all, length, leb,
  nat_beq,
}
use strategy_adapter.Prelude.Int.{codes}

abbrev between : ℕ → ℕ → ℕ → Bool
between lo hi c = leb lo c && leb c hi

-- `[a-zA-Z0-9]`
abbrev is_alphanumeric : ℕ → Bool
is_alphanumeric c = between b'a' b'z' c || between b'A' b'Z' c || between b'0' b'9' c

-- `[a-zA-Z0-9_.:/-]`
abbrev is_identifier_char : ℕ → Bool
is_identifier_char c =
    is_alphanumeric c
    || nat_beq c b'_'
    || nat_beq c b'.'
    || nat_beq c b':'
    || nat_beq c b'/'
    || nat_beq c b'-'

abbrev matches : List ℕ → Bool
matches [] = false
matches (c ∷ cs) = is_alphanumeric c && all is_identifier_char cs && leb (length cs) 127

-- `Identifier`
unfoldable pub is_identifier : String → Bool
is_identifier text = matches (codes text)

-- `[a-f0-9]`
abbrev is_hex_digit : ℕ → Bool
is_hex_digit c = between b'a' b'f' c || between b'0' b'9' c

-- the pattern of `strategy_code_evidence_sha256`, which may be absent
unfoldable pub is_code_digest : Option String → Bool
is_code_digest none = true
is_code_digest (some text) =
    let digits = codes text in all is_hex_digit digits && nat_beq (length digits) 64
