-- ===== src/Base64/Chars.antt =====
-- The two tables of bid_base64.c, entry by entry.
use libbrowserid.Prelude.{
  ℕ, zero, suc, ◌/◌, ◌%◌, ◌^◌, ◌<◌, ◌≡◌, refl, Bool, true, false, not, ◌&&◌, Option, none, some,
  ◌==◌, ltb, get_or, arith,
}
use libbrowserid.Base64.{pos, chars, char_at}

holds_below : (ℕ → Bool) → ℕ → Bool
holds_below test zero = true
holds_below test (suc n) = holds_below test n && test n

holds_below-lt : (test : ℕ → Bool) (n i : ℕ) → holds_below test n ≡ true → i < n → test i ≡ true
unfolding holds_below
holds_below-lt test zero i all lt = absurd (omega arith)
holds_below-lt test (suc n) i all lt = ground (arith, holds_below-lt test n i)

abbrev is_pos : ℕ → Option ℕ → Bool
is_pos i none = false
is_pos i (some t) = t == i

-- A character of ASCII that does not separate the parts of a token or of a backed assertion.
abbrev pub in_text : ℕ → Bool
in_text c = ltb c 128 && (not (c == b'.') && not (c == b'~'))

abbrev entry_ok : Bool → ℕ → Bool
entry_ok url i =
    let c = get_or (chars url) i 0 in
    is_pos i (pos c) && (not (c == b'=') && (not (c == 0) && in_text c))

table_ok : (url : Bool) → holds_below (entry_ok url) 64 ≡ true
unfolding holds_below pos
table_ok true = refl
table_ok false = refl

-- A character of a table: `pos` finds its index, and it is neither the padding nor the NUL, of ASCII and no
-- separator.
pub record IsCode (i c : ℕ) : Type 0 where
  pub found : pos c ≡ some i
  pub not_pad : (c == b'=') ≡ false
  pub not_nul : (c == 0) ≡ false
  pub ascii : in_text c ≡ true

is_pos→eq : (i : ℕ) (o : Option ℕ) → is_pos i o ≡ true → o ≡ some i
is_pos→eq i none h = cc
is_pos→eq i (some t) h = ground arith

entry_ok→IsCode : (url : Bool) (i : ℕ) → entry_ok url i ≡ true → IsCode i (get_or (chars url) i 0)
entry_ok→IsCode url i h = record {
  found = is_pos→eq i (pos (get_or (chars url) i 0)) (ground arith);
  not_pad = ground arith;
  not_nul = ground arith;
  ascii = ground arith;
}

-- Every character that the encoder writes decodes to the six bits that it stands for.
pub char_at-IsCode : (url : Bool) (c shift : ℕ) → IsCode (c / 2 ^ shift % 64) (char_at url c shift)
char_at-IsCode url c shift =
    entry_ok→IsCode url (c / 2 ^ shift % 64)
      (holds_below-lt (entry_ok url) 64 (c / 2 ^ shift % 64) (table_ok url) (omega arith))
