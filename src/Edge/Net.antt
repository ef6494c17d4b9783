-- ===== src/Edge/Net.antt =====
-- Package `net` as an interface: addresses, networks, and the reading of both. Nothing is assumed
-- of it. With it, the two helpers of `edgeproxy/realip.go` that read addresses.
use poor_man_stack.Base.{Text, Bool, Option, none, some, List, [], ◌∷◌, trim_space, any}

pub record Net : Type 1 where
  pub Ip : Type 0
  pub Cidr : Type 0
  pub parse_ip : Text → Option Ip
  pub parse_cidr : Text → Option Cidr
  pub contains : Cidr → Ip → Bool
  pub split_host_port : Text → Option Text

module _ (net : Net) where
  open net use {Ip, Cidr, parse_ip, parse_cidr, contains, split_host_port}

  -- `parseNets`: entries that do not parse are dropped.
  unfoldable pub parse_nets : List Text → List Cidr
  parse_nets [] = []
  parse_nets (c ∷ cs) = elim (parse_cidr c) [ none ↦ parse_nets cs | some n ↦ n ∷ parse_nets cs ]

  unfoldable pub host_only : Text → Text
  host_only host_port = elim (split_host_port host_port) [
    | some host ↦ host
    | none ↦ trim_space host_port
  ]

  -- The loop `for _, n := range nets { if n.Contains(ip) { return true } }; return false`.
  unfoldable pub in_any : Ip → List Cidr → Bool
  in_any ip nets = any (λ n. contains n ip) nets
