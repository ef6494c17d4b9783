-- ===== src/Webhooks/Wire.antt =====
-- The texts of a delivery: the timestamp header, the signature header and the signed message of
-- `pmcluster/internal/webhooks/receiver.go`, with the functions of `strconv` and `hex` they call.
pub mod Signed
use poor_man_stack.Base.{
  ℕ, zero, suc, ◌+◌, ◌*◌, ◌-◌, ◌^◌, ◌/◌, ◌%◌, Text, codes, ◌==◌, text_eq, nat_eq, Bool, true, false,
  not, ◌&&◌, ◌||◌, Option, none, some, List, [], ◌∷◌, ◌++◌, Result, ok, err, if◌then◌else◌, ltb,
  leb, cut_prefix,
}
use poor_man_stack.Base.Int.{ℤ, pos, negsuc}

abbrev pub Bytes : Type 0
Bytes = List ℕ

pub data HmacError : Type 0 where
  missing_timestamp invalid_timestamp skew_too_large missing_signature no_scheme bad_hex
        signature_mismatch :
      HmacError
  unknown_source : Text → HmacError

abbrev pub is_digit : ℕ → Bool
is_digit c = leb b'0' c && leb c b'9'

-- The digits of a base 10 number behind those that give `acc`.
unfoldable pub digits_from : ℕ → Text → Option ℕ
digits_from acc [] = some acc
digits_from acc (c ∷ s) =
    let rest = digits_from (acc * 10 + (c - b'0')) s in if is_digit c then rest else none

unfoldable pub unsigned : Text → Option ℕ
unfolding digits_from
unsigned [] = none
unsigned (c ∷ s) = digits_from 0 (c ∷ s)

unfoldable pub negated : ℕ → ℤ
negated zero = pos 0
negated (suc n) = negsuc n

-- `strconv.ParseInt(header, 10, 64)`, where `none` is an error of syntax or of range.
unfoldable pub parse_int : Text → Option ℤ
unfolding unsigned negated
parse_int [] = none
parse_int (c ∷ s) =
    if c == b'-'
    then elim (unsigned s) [
      | none ↦ none
      | some n ↦ if leb n (2 ^ 63) then some (negated n) else none
    ]
    else elim (unsigned (if c == b'+' then s else c ∷ s)) [
      | none ↦ none
      | some n ↦ if ltb n (2 ^ 63) then some (pos n) else none
    ]

-- `v <= 0` is refused, so what is returned is a positive number.
unfoldable pub positive : Option ℤ → Result HmacError ℕ
positive none = err invalid_timestamp
positive (some (negsuc n)) = err invalid_timestamp
positive (some (pos zero)) = err invalid_timestamp
positive (some (pos (suc n))) = ok (suc n)

unfoldable pub parse_timestamp : Text → Result HmacError ℕ
unfolding positive parse_int
parse_timestamp [] = err missing_timestamp
parse_timestamp (c ∷ s) = positive (parse_int (c ∷ s))

-- `fmt.Fprint` of a number, on the digits left: 19 are enough for an `int64`.
unfoldable pub decimal_from : ℕ → ℕ → Text → Text
decimal_from zero n acc = acc
decimal_from (suc fuel) n acc =
    let more = decimal_from fuel (n / 10) ((b'0' + n % 10) ∷ acc) in
    if ltb n 10 then (b'0' + n) ∷ acc else more

unfoldable pub decimal : ℕ → Text
unfolding decimal_from
decimal n = decimal_from 20 n []

-- What the HMAC is computed over.
unfoldable pub message : ℕ → Bytes → Bytes
unfolding decimal
message timestamp body = decimal timestamp ++ body

unfoldable pub nibble : ℕ → Option ℕ
nibble c =
    if is_digit c
    then some (c - b'0')
    else if leb b'a' c && leb c b'f'
    then some (c - b'a' + 10)
    else if leb b'A' c && leb c b'F'
    then some (c - b'A' + 10)
    else none

-- One byte in front of the decoded rest, if all three could be read.
unfoldable pub hex_byte : Option ℕ → Option ℕ → Option Bytes → Option Bytes
hex_byte (some high) (some low) (some rest) = some ((high * 16 + low) ∷ rest)
hex_byte none _ _ = none
hex_byte (some _) none _ = none
hex_byte (some _) (some _) none = none

-- `hex.DecodeString`.
unfoldable pub hex_decode : Text → Option Bytes
unfolding nibble hex_byte
hex_decode [] = some []
hex_decode (_ ∷ []) = none
hex_decode (h ∷ l ∷ s) = hex_byte (nibble h) (nibble l) (hex_decode s)
