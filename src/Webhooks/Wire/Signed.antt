-- ===== src/Webhooks/Wire/Signed.antt =====
-- The signed message determines the timestamp and the body.
use poor_man_stack.Base.{
  ℕ, zero, suc, ◌+◌, ◌*◌, ◌-◌, ◌^◌, ◌/◌, ◌%◌, ◌<◌, Text, ◌≡◌, refl, false, [], ◌∷◌, ◌++◌, arith,
  if◌then◌else◌, Bool-cases, ltb, ltb→lt, ap, ◌∙◌, inl, inr,
}
use poor_man_stack.Webhooks.Wire.{Bytes, is_digit, decimal_from, decimal, message}

-- The number that leads a text, behind `acc`, and what follows it.
unfoldable leading : ℕ → Text → ℕ × Text
leading acc [] = (acc, [])
leading acc (c ∷ s) =
    let rest = leading (acc * 10 + (c - b'0')) s in if is_digit c then rest else (acc, c ∷ s)

-- A text that is empty or starts with no digit.
abbrev pub NoDigit : Text → Type 0
NoDigit [] = Unit
NoDigit (c ∷ s) = is_digit c ≡ false

leading-NoDigit : (acc : ℕ) (s : Text) → NoDigit s → leading acc s ≡ (acc, s)
unfolding leading
leading-NoDigit acc [] h = refl
leading-NoDigit acc (c ∷ s) h = ground arith

leading-digit :
    (acc d m : ℕ) (s : Text)
    → d < 10
    → acc * 10 + d ≡ m
    → leading acc ((b'0' + d) ∷ s) ≡ leading m s
unfolding leading
leading-digit acc d m s h e = ground arith

-- Reading back what the digits of `n` were put in front of.
leading-decimal_from :
    (fuel n : ℕ) (acc : Text) → n < 10 ^ fuel → leading 0 (decimal_from fuel n acc) ≡ leading n acc
unfolding decimal_from
leading-decimal_from zero n acc h = ap (λ k. leading k acc) (omega arith)
leading-decimal_from (suc fuel) n acc h = elim (Bool-cases (ltb n 10)) [
  | inl small ↦ rw small (leading-digit 0 n n acc (ltb→lt n 10 small) (omega arith))
  | inr large ↦ rw large (
      leading-decimal_from fuel (n / 10) ((b'0' + n % 10) ∷ acc) (omega arith)
      ∙ leading-digit (n / 10) (n % 10) n acc (omega arith) (omega arith))
]

decimal_from-append :
    (fuel n : ℕ) (acc s : Text) → decimal_from fuel n acc ++ s ≡ decimal_from fuel n (acc ++ s)
unfolding decimal_from
decimal_from-append zero n acc s = refl
decimal_from-append (suc fuel) n acc s =
    ground (arith, decimal_from-append fuel (n / 10) ((b'0' + n % 10) ∷ acc) s)

leading-decimal_from-append :
    (fuel n : ℕ) (s : Text)
    → n < 10 ^ fuel
    → NoDigit s
    → leading 0 (decimal_from fuel n [] ++ s) ≡ (n, s)
leading-decimal_from-append fuel n s bound h =
    rw (decimal_from-append fuel n [] s, leading-decimal_from fuel n s bound)
      (leading-NoDigit n s h)

leading-message :
    (timestamp : ℕ) (body : Bytes)
    → timestamp < 2 ^ 63
    → NoDigit body
    → leading 0 (message timestamp body) ≡ (timestamp, body)
unfolding message decimal
leading-message timestamp body bound h =
    leading-decimal_from-append 20 timestamp body (omega arith) h

-- A signature of one timestamp and body is a signature of no other, among the timestamps that fit
-- an `int64` and the bodies that do not begin with a digit.
pub message-injective :
    (t t' : ℕ) (body body' : Bytes)
    → t < 2 ^ 63
    → t' < 2 ^ 63
    → NoDigit body
    → NoDigit body'
    → message t body ≡ message t' body'
    → (t ≡ t') × (body ≡ body')
message-injective t t' body body' bound bound' h h' e =
    let read = leading-message t body bound h in
    let read' = leading-message t' body' bound' h' in (cc (read, read', e), cc (read, read', e))
