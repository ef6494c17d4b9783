-- ===== src/Edge/Limits.antt =====
-- `pmcluster/internal/edgeproxy/ratelimit.go`. The token bucket is the one of
-- golang.org/x/time/rate, an interface here: a new bucket, and one request at one time. Times are
-- nanoseconds.
pub mod Isolation
pub mod Refinement
use poor_man_stack.Base.{
  ℕ, ◌+◌, ◌<◌, Text, Map, lookup, insert, Bool, true, false, ◌&&◌, ◌||◌, ◌==◌, nat_eq, text_eq,
  Option, none, some, List, [], ◌∷◌, ltb, if◌then◌else◌, cut_prefix, codes,
}

pub record Buckets : Type 1 where
  pub Limiter : Type 0
  -- The rate and the burst.
  pub Shape : Type 0
  pub new_limiter : Shape → Limiter
  pub allow : ℕ → Limiter → Limiter × Bool

module _ (buckets : Buckets) where
  open buckets use {Limiter, Shape, new_limiter, allow}

  pub record IpEntry : Type 0 where
    pub lim : Limiter
    pub last : ℕ

  -- An `idle_ttl` of 0 stands for every TTL that is not positive.
  pub record PerIpLimiter : Type 0 where
    pub limiters : Map IpEntry
    pub shape : Shape
    pub idle_ttl : ℕ

  -- The loop that deletes each entry with `now.Sub(old.last) > p.idleTTL`.
  unfoldable pub evict : ℕ → ℕ → Map IpEntry → Map IpEntry
  evict now ttl [] = []
  evict now ttl ((k, old) ∷ m) =
      if ltb (old.last + ttl) now then evict now ttl m else (k, old) ∷ evict now ttl m

  -- `e.last = now; return e.lim.Allow()`, with the entry stored.
  unfoldable pub touch : ℕ → Text → Limiter → Map IpEntry → Map IpEntry × Bool
  touch now ip lim m =
      let (lim', granted) = allow now lim in
      (insert ip (record { lim = lim'; last = now }) m, granted)

  unfoldable pub allow_ip : ℕ → Text → PerIpLimiter → PerIpLimiter × Bool
  allow_ip now ip p = elim (lookup ip p.limiters) [
    | some e ↦
        let (m, granted) = touch now ip e.lim p.limiters in (record p { limiters = m }, granted)
    | none ↦
        let kept = if ltb 0 p.idle_ttl then evict now p.idle_ttl p.limiters else p.limiters in
        let (m, granted) = touch now ip (new_limiter p.shape) kept in
        (record p { limiters = m }, granted)
  ]

-- What stands behind the prefix begins with a "/".
unfoldable pub at_boundary : Option Text → Bool
at_boundary none = false
at_boundary (some []) = false
at_boundary (some (c ∷ _)) = c == b'/'

-- `pathHasPrefix`: the prefix itself, or the prefix and a "/".
unfoldable pub path_has_prefix : Text → Text → Bool
unfolding at_boundary
path_has_prefix p prefix =
    if prefix == [] then false else if p == prefix then true else at_boundary (cut_prefix prefix p)

-- The two limiters of the middleware `RateLimiter`.
pub record RateLimits (buckets : Buckets) : Type 0 where
  pub api : PerIpLimiter buckets
  pub webhook : PerIpLimiter buckets

module _ (buckets : Buckets) where
  -- `lim := api`, or the webhook limiter below "/webhook".
  unfoldable pub limited : ℕ → Text → Bool → RateLimits buckets → RateLimits buckets × Bool
  limited now ip true s =
      let (lim, granted) = allow_ip buckets now ip s.webhook in
      (record s { webhook = lim }, granted)
  limited now ip false s =
      let (lim, granted) = allow_ip buckets now ip s.api in (record s { api = lim }, granted)

  -- The middleware up to the call of the next handler: whether that is called.
  unfoldable pub rate_limit : ℕ → Text → Text → RateLimits buckets → RateLimits buckets × Bool
  unfolding limited
  rate_limit now ip path s =
      if path_has_prefix path (codes "/health")
      then (s, true)
      else if ip == []
      then (s, true)
      else limited now ip (path_has_prefix path (codes "/webhook")) s
