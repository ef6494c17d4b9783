-- ===== src/Edge/Handler.antt =====
-- The chain of middlewares that `New` of `pmcluster/internal/edgeproxy/proxy.go` builds, run for
-- one request at one time, and its routes. Which route a request takes is chi's and a parameter, as
-- is what the daemon answers, a timeout included.
pub mod Isolation
pub mod Enforcement
use poor_man_stack.Base.{
  ℕ, Text, ◌==◌, text_eq, Bool, true, false, not, ◌&&◌, List, [], ◌∷◌, Option, none, some, codes,
  if◌then◌else◌,
}
use poor_man_stack.Edge.Net.{Net, host_only}
use poor_man_stack.Edge.RealIp.{Request, real_ip}
use poor_man_stack.Edge.Bans.{AutoBan, Ledger, record_failure, is_failure_status}
use poor_man_stack.Edge.Blocklist.{Lists, is_blocked}
use poor_man_stack.Edge.Limits.{Buckets, RateLimits, rate_limit}
use poor_man_stack.Edge.Shield.{Semaphore, acquire, release}

pub record Config : Type 0 where
  pub trusted_cidrs : List Text
  pub lists : Lists
  pub auto_ban : AutoBan

pub record Reply : Type 0 where
  pub status : ℕ
  -- Whether the daemon answered.
  pub forwarded : Bool

pub record EdgeState (buckets : Buckets) : Type 0 where
  pub ledger : Ledger
  pub rate : RateLimits buckets
  pub sem : Option Semaphore

-- `none` stands for every method.
pub record Route : Type 0 where
  pub method : Option Text
  pub pattern : Text

-- `r.Get` and the two `r.Handle`; behind each is the reverse proxy.
unfoldable pub routes : List Route
routes =
    record { method = some (codes "GET"); pattern = codes "/health" }
    ∷ record { method = none; pattern = codes "/api/*" }
    ∷ record { method = none; pattern = codes "/webhook/*" }
    ∷ []

pub record Server : Type 0 where
  -- The router: `none` if a route has this method and path, or else the status that it answers.
  pub unrouted : List Route → Text → Text → Option ℕ
  -- The status that the reverse proxy brings.
  pub upstream : Request → ℕ

-- Behind the middlewares: a route to the daemon, or the answer of the router itself.
unfoldable pub dispatch : Server → Request → Reply
dispatch server r = elim (server.unrouted routes r.method r.path) [
  | none ↦ record { status = server.upstream r; forwarded = true }
  | some status ↦ record { status = status; forwarded = false }
]

-- The address that `Blocklist` looks up.
unfoldable pub shown_ip : Net → Config → Request → Text
shown_ip net cfg r =
    let ip = real_ip net cfg.trusted_cidrs r in if ip == [] then host_only net r.remote_addr else ip

module _ (net : Net) (buckets : Buckets) (server : Server) (cfg : Config) (now : ℕ) where
  -- The handler that `RateLimiter` returns.
  unfoldable pub rate_limited : Text → Request → EdgeState buckets → EdgeState buckets × Reply
  rate_limited ip r s =
      let (rate, granted) = rate_limit buckets now ip r.path s.rate in
      if granted
      then (record s { rate = rate }, dispatch server r)
      else (record s { rate = rate }, record { status = 429; forwarded = false })

  -- The handler that `AutoBan` returns.
  unfoldable pub watched : Text → Request → EdgeState buckets → EdgeState buckets × Reply
  watched ip r s =
      let (s', reply) = rate_limited ip r s in
      if not (ip == []) && is_failure_status reply.status
      then (record s' { ledger = record_failure cfg.auto_ban now ip s'.ledger }, reply)
      else (s', reply)

  -- The handler that `ConnectionShield` returns; the slot is given back when the inner one ends.
  unfoldable pub shielded : Text → Request → EdgeState buckets → EdgeState buckets × Reply
  shielded ip r s =
      let (sem, taken) = acquire s.sem in
      let (s', reply) = watched ip r (record s { sem = sem }) in
      if taken
      then (record s' { sem = release s'.sem }, reply)
      else (record s { sem = sem }, record { status = 503; forwarded = false })

  unfoldable pub handle : Request → EdgeState buckets → EdgeState buckets × Reply
  handle r s =
      let (blocked, until) = is_blocked net cfg.lists now (shown_ip net cfg r) s.ledger.until in
      let s' = record s { ledger = record { fails = s.ledger.fails; until = until } } in
      if blocked
      then (s', record { status = 403; forwarded = false })
      else shielded (real_ip net cfg.trusted_cidrs r) r s'
