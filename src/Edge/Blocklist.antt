-- ===== src/Edge/Blocklist.antt =====
-- `blocklist.isBlocked` of `pmcluster/internal/edgeproxy/blocklist.go`.
pub mod Passing
use poor_man_stack.Base.{
  ℕ, Text, Map, Bool, true, false, Option, none, some, List, [], ◌∷◌, if◌then◌else◌,
}
use poor_man_stack.Edge.Net.{Net, parse_nets, in_any}
use poor_man_stack.Edge.Bans.{banned}

-- The two lists as they are configured.
pub record Lists : Type 0 where
  pub allowed_cidrs : List Text
  pub banned_cidrs : List Text

module _ (net : Net) where
  open net use {Ip, Cidr, parse_ip}

  -- `if len(b.allowed) > 0 { … }`: blocked unless some allowed network has the address.
  unfoldable pub outside : Ip → List Cidr → Bool
  outside ip [] = false
  outside ip (n ∷ ns) = if in_any net ip (n ∷ ns) then false else true

  -- The static lists.
  unfoldable pub listed : Lists → Text → Bool
  unfolding outside
  listed lists ip = elim (parse_ip ip) [
    | none ↦ true
    | some parsed ↦
        if in_any net parsed (parse_nets net lists.banned_cidrs)
        then true
        else outside parsed (parse_nets net lists.allowed_cidrs)
  ]

  -- The live bans first: the answer, and the ban store behind it.
  unfoldable pub is_blocked : Lists → ℕ → Text → Map ℕ → Bool × Map ℕ
  unfolding listed
  is_blocked lists now ip until =
      let (live, until') = banned now ip until in
      if live then (true, until') else (listed lists ip, until')
