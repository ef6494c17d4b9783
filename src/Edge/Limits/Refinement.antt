-- ===== src/Edge/Limits/Refinement.antt =====
-- The shared, evicting map of buckets against one bucket for each address.
use poor_man_stack.Base.{
  ℕ, ◌+◌, ◌≤◌, Text, text_eq, text_beq_iff, ◌==◌, Map, lookup, Bool, ◌≡◌, refl, sym, subst, ◌≢◌,
  none, some, List, [], ◌∷◌, if◌then◌else◌, arith, Bool-cases, inl, inr,
}
use poor_man_stack.Edge.Limits.{Buckets, IpEntry, PerIpLimiter, touch, allow_ip}
use poor_man_stack.Edge.Limits.Isolation.{lookup-touch, lookup-allow_ip_ne}

-- Until `last` is older than the TTL, some request of the address renews it.
abbrev pub IsSteady : Text → ℕ → ℕ → List (ℕ × Text) → Type 0
IsSteady ip ttl last [] = Unit
IsSteady ip ttl last ((now, q) ∷ es) =
    (now ≤ last + ttl) × IsSteady ip ttl (if q == ip then now else last) es

abbrev pub times_of : Text → List (ℕ × Text) → List ℕ
times_of ip [] = []
times_of ip ((now, q) ∷ es) = if q == ip then now ∷ times_of ip es else times_of ip es

module _ (buckets : Buckets) where
  open buckets use {Limiter, new_limiter, allow}

  -- One bucket alone.
  abbrev pub dedicated : List ℕ → Limiter → List Bool
  dedicated [] lim = []
  dedicated (now ∷ times) lim = (allow now lim).1 ∷ dedicated times (allow now lim).0

  -- The answers that one address gets among all the requests.
  unfoldable pub serve : Text → List (ℕ × Text) → PerIpLimiter buckets → List Bool
  serve ip [] p = []
  serve ip ((now, q) ∷ es) p =
      let rest = serve ip es (allow_ip buckets now q p).0 in
      if q == ip then (allow_ip buckets now q p).1 ∷ rest else rest

  -- What a request of the address does, when its bucket is known and when it is not.
  abbrev Answers : ℕ → Text → PerIpLimiter buckets → Limiter → PerIpLimiter buckets × Bool → Type 0
  Answers now ip p lim (p', granted) =
      (granted ≡ (allow now lim).1)
      × (lookup ip p'.limiters ≡ some (record { lim = (allow now lim).0; last = now }))

  touch_self :
      (now : ℕ) (ip : Text) (lim : Limiter) (m : Map (IpEntry buckets))
      → lookup ip (touch buckets now ip lim m).0
        ≡ some (record { lim = (allow now lim).0; last = now })
  touch_self now ip lim m = ground (arith, lookup-touch buckets now ip ip lim m, text_beq_iff ip ip)

  allow_ip-known :
      (now : ℕ) (ip : Text) (p : PerIpLimiter buckets) (e : IpEntry buckets)
      → lookup ip p.limiters ≡ some e
      → Answers now ip p e.lim (allow_ip buckets now ip p)
  unfolding allow_ip
  allow_ip-known now ip p e h =
      rw (h, allow_ip) (unfold touch in refl, touch_self now ip e.lim p.limiters)

  allow_ip-new :
      (now : ℕ) (ip : Text) (p : PerIpLimiter buckets)
      → lookup ip p.limiters ≡ none
      → Answers now ip p (new_limiter p.shape) (allow_ip buckets now ip p)
  unfolding allow_ip
  allow_ip-new now ip p h =
      rw (h, allow_ip) (unfold touch in refl, touch_self now ip (new_limiter p.shape) _)

  allow_ip-ttl :
      (now : ℕ) (q : Text) (p : PerIpLimiter buckets)
      → (allow_ip buckets now q p).0.idle_ttl ≡ p.idle_ttl
  unfolding allow_ip
  allow_ip-ttl now q p = ground arith

  serve-dedicated_from :
      (ip : Text) (es : List (ℕ × Text)) (p : PerIpLimiter buckets) (e : IpEntry buckets)
      → lookup ip p.limiters ≡ some e
      → IsSteady ip p.idle_ttl e.last es
      → serve ip es p ≡ dedicated (times_of ip es) e.lim
  unfolding serve
  serve-dedicated_from ip [] p e h s = refl
  serve-dedicated_from ip ((now, q) ∷ es) p e h (le, s) = elim (Bool-cases (q == ip)) [
    | inl same ↦
        let (answer, stored) =
          subst (λ x. Answers now ip p e.lim (allow_ip buckets now x p))
            (sym ((text_beq_iff q ip).0 same)) (allow_ip-known now ip p e h) in
        let ih =
          serve-dedicated_from ip es (allow_ip buckets now q p).0
            (record { lim = (allow now e.lim).0; last = now }) stored
            (rw allow_ip-ttl (rw same at s)) in
        rw (same, answer, ih)
    | inr other ↦
        let ne : q ≢ ip = λ x. cc (other, (text_beq_iff q ip).1 x) in
        rw (other) (
          serve-dedicated_from ip es (allow_ip buckets now q p).0 e
            (lookup-allow_ip_ne buckets now q ip p e ne h le) (rw allow_ip-ttl (rw other at s)))
  ]

  -- From its first request on, an address gets the answers that a bucket of its own would give it,
  -- whatever the other addresses ask, as long as it is never silent for longer than the TTL.
  pub serve-dedicated :
      (ip : Text) (now : ℕ) (es : List (ℕ × Text)) (p : PerIpLimiter buckets)
      → lookup ip p.limiters ≡ none
      → IsSteady ip p.idle_ttl now es
      → serve ip ((now, ip) ∷ es) p ≡ dedicated (now ∷ times_of ip es) (new_limiter p.shape)
  unfolding serve
  serve-dedicated ip now es p h s =
      let (answer, stored) = allow_ip-new now ip p h in
      let ih =
        serve-dedicated_from ip es (allow_ip buckets now ip p).0
          (record { lim = (allow now (new_limiter p.shape)).0; last = now }) stored
          (rw allow_ip-ttl s) in
      rw ((text_beq_iff ip ip).1 refl, answer, ih)
