-- ===== src/Edge/Blocklist/Passing.antt =====
-- Which addresses pass the blocklist.
use poor_man_stack.Base.{
  ℕ, Text, Map, true, false, ◌≡◌, refl, ◌↔◌, ◌⊎◌, inl, inr, some, List, [], ◌∷◌, arith,
  Option-cases,
}
use poor_man_stack.Edge.Net.{Net, parse_nets, in_any}
use poor_man_stack.Edge.Bans.{banned}
use poor_man_stack.Edge.Blocklist.{Lists, outside, is_blocked}

module _ (net : Net) where
  open net use {Ip, Cidr, parse_ip, parse_cidr}

  pub record Passes (lists : Lists) (now : ℕ) (ip : Text) (until : Map ℕ) : Type 0 where
    pub live : (banned now ip until).0 ≡ false
    pub address : Ip
    pub parsed : parse_ip ip ≡ some address
    pub undenied : in_any net address (parse_nets net lists.banned_cidrs) ≡ false
    pub allowed :
        (parse_nets net lists.allowed_cidrs ≡ [])
        ⊎ (in_any net address (parse_nets net lists.allowed_cidrs) ≡ true)

  outside-eq-false_iff :
      (ip : Ip) (nets : List Cidr)
      → (outside net ip nets ≡ false) ↔ ((nets ≡ []) ⊎ (in_any net ip nets ≡ true))
  unfolding outside
  outside-eq-false_iff ip [] = (λ _. inl refl, λ _. refl)
  outside-eq-false_iff ip (n ∷ ns) = ground arith

  -- An address passes exactly when no ban on it is live, it parses, no denied network has it, and
  -- an allowed one has it or no allowed network is left after parsing.
  pub is_blocked-iff_Passes :
      (lists : Lists) (now : ℕ) (ip : Text) (until : Map ℕ)
      → ((is_blocked net lists now ip until).0 ≡ false) ↔ Passes lists now ip until
  unfolding is_blocked
  is_blocked-iff_Passes lists now ip until = (to, from)
    where
      to : (is_blocked net lists now ip until).0 ≡ false → Passes lists now ip until
      to h = elim (Option-cases (parse_ip ip)) [
        | inl unread ↦ absurd (ground arith)
        | inr (address, parsed) ↦ record {
          live = ground arith;
          address = address;
          parsed = parsed;
          undenied = ground arith;
          allowed =
              (outside-eq-false_iff address (parse_nets net lists.allowed_cidrs)).0 (ground arith);
        }
      ]

      from : Passes lists now ip until → (is_blocked net lists now ip until).0 ≡ false
      from p =
          ground (
            arith,
            (outside-eq-false_iff p.address (parse_nets net lists.allowed_cidrs)).1 p.allowed,
          )
