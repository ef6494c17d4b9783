-- ===== src/Edge/RealIp.antt =====
-- `pmcluster/internal/edgeproxy/realip.go`: whose address a request is accounted to.
pub mod Walk
use poor_man_stack.Base.{
  Text, ◌==◌, text_eq, Bool, false, Option, none, some, List, [], ◌∷◌, reverse, split, trim_space,
  if◌then◌else◌,
}
use poor_man_stack.Edge.Net.{Net, parse_nets, host_only, in_any}

-- What the middlewares read of an HTTP request.
pub record Request : Type 0 where
  pub remote_addr : Text
  pub forwarded_for : Text
  pub method : Text
  pub path : Text

-- The loop of `xff` over the parts of the header.
unfoldable pub hops_of : List Text → List Text
hops_of [] = []
hops_of (part ∷ parts) =
    let hop = trim_space part in if hop == [] then hops_of parts else hop ∷ hops_of parts

unfoldable pub xff : Request → List Text
xff r = hops_of (split b',' r.forwarded_for)

module _ (net : Net) (trusted : List Text) where
  open net use {parse_ip}

  unfoldable pub is_trusted : Text → Bool
  is_trusted ip = elim (parse_ip ip) [
    | none ↦ false
    | some parsed ↦ in_any net parsed (parse_nets net trusted)
  ]

  -- The loop over the reversed chain.
  unfoldable pub walk : Text → List Text → Text
  walk client [] = client
  walk client (hop ∷ hops) = let next = walk hop hops in if is_trusted client then next else client

  unfoldable pub real_ip : Request → Text
  real_ip r =
      let client = walk (host_only net r.remote_addr) (reverse (xff r)) in
      if client == [] then host_only net r.remote_addr else client
