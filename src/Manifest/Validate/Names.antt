-- ===== src/Manifest/Validate/Names.antt =====
-- The two regular expressions of `validate.go`, as the texts that they match.
use poor_man_stack.Base.{
  false, ap, ℕ, ◌≤◌, Text, ◌==◌, text_eq, text_beq_iff, nat_eq, nat_beq_iff, true, ◌&&◌, ◌≡◌, ◌↔◌,
  ◌⊎◌, inl, inr, [], ◌∷◌, ◌++◌, length, All, all-All_iff, arith, Bool-cases,
}
use poor_man_stack.Manifest.Validate.{
  is_lower_letter, is_letter, is_decimal, is_name_char, is_name, is_top_domain, is_host_char,
  ends_in_domain, is_hostname,
}

-- A lower-case letter, and at most 62 letters, digits, "_" and "-" behind it.
abbrev pub IsName : Text → Type 0
IsName [] = ⊥
IsName (c ∷ s) = (is_lower_letter c ≡ true) × All (λ d. is_name_char d ≡ true) s × (length s ≤ 62)

pub is_name_iff : (s : Text) → (is_name s ≡ true) ↔ IsName s
unfolding is_name
is_name_iff [] = (λ h. cc, λ h. absurd h)
is_name_iff (c ∷ s) =
    ground
      (arith, all-All_iff {P = λ d. is_name_char d ≡ true} is_name_char (λ d. (λ h. h, λ h. h)) s)

-- Labels, a ".", and at least two letters.
abbrev pub IsDomain : Text → Type 0
IsDomain s =
    (labels : Text) × (top : Text) × (s ≡ labels ++ b'.' ∷ top)
    × All (λ c. is_host_char c ≡ true) labels
    × (is_top_domain top ≡ true)

-- A first character in front of a domain, or alone: then there is no dot.
abbrev pub IsHostname : Text → Type 0
IsHostname [] = ⊥
IsHostname (c ∷ s) =
    ((is_letter c ≡ true) ⊎ ((is_decimal c ≡ true) ⊎ (c ≡ b'*'))) × ((s ≡ []) ⊎ IsDomain s)

ends_in_domain-tail :
    (c : ℕ) (s : Text)
    → ends_in_domain (c ∷ s) ≡ true
    → (c == b'.' && is_top_domain s) ≡ false
    → (is_host_char c ≡ true) × (ends_in_domain s ≡ true)
unfolding ends_in_domain
ends_in_domain-tail c s h further = ground arith

IsDomain-of_ends : (s : Text) → ends_in_domain s ≡ true → IsDomain s
unfolding ends_in_domain
IsDomain-of_ends [] h = absurd (ground arith)
IsDomain-of_ends (c ∷ s) h = elim (Bool-cases (c == b'.' && is_top_domain s)) [
  | inl here ↦ ([], s, ground (arith, nat_beq_iff c b'.'), tt, ground arith)
  | inr further ↦
      let (first, rest) = ends_in_domain-tail c s h further in
      let (labels, top, e, host, last) = IsDomain-of_ends s rest in
      (c ∷ labels, top, ap (λ x. c ∷ x) e, (first, host), last)
]

ends_of_labels :
    (labels top : Text)
    → All (λ c. is_host_char c ≡ true) labels
    → is_top_domain top ≡ true
    → ends_in_domain (labels ++ b'.' ∷ top) ≡ true
unfolding ends_in_domain
ends_of_labels [] top host last = ground arith
ends_of_labels (c ∷ labels) top (p, host) last = ground (arith, ends_of_labels labels top host last)

ends_in_domain_iff : (s : Text) → (ends_in_domain s ≡ true) ↔ IsDomain s
ends_in_domain_iff s =
    (IsDomain-of_ends s, λ (labels, top, e, host, last). rw e (ends_of_labels labels top host last))

pub is_hostname_iff : (s : Text) → (is_hostname s ≡ true) ↔ IsHostname s
is_hostname_iff [] = unfold is_hostname in (λ h. cc, λ h. absurd h)
is_hostname_iff (c ∷ s) =
    unfold is_hostname in
    ground (arith, text_beq_iff s [], nat_beq_iff c b'*', ends_in_domain_iff s)
