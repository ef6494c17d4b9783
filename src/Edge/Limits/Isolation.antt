-- ===== src/Edge/Limits/Isolation.antt =====
-- What a request of one address does to the buckets of the others, and which paths share a bucket.
use poor_man_stack.Base.{
  ◌==◌, if◌then◌else◌, ltb, Option-cases, ℕ, ◌+◌, ◌≤◌, Text, text_eq, text_beq, text_beq_iff, Map,
  lookup, lookup-insert, true, ◌≡◌, ◌≢◌, ◌↔◌, ◌⊎◌, inl, inr, Option, none, some, [], ◌∷◌, ◌++◌,
  cut_prefix, cut_prefix-append, arith, Bool-cases,
}
use poor_man_stack.Edge.Limits.{
  Buckets, IpEntry, PerIpLimiter, evict, touch, allow_ip, at_boundary, path_has_prefix,
}

cut_prefix-eq-some : (p s rest : Text) → cut_prefix p s ≡ some rest → s ≡ p ++ rest
unfolding cut_prefix
cut_prefix-eq-some [] s rest h = ground arith
cut_prefix-eq-some (c ∷ p) [] rest h = cc
cut_prefix-eq-some (c ∷ p) (d ∷ s) rest h = ground (arith, cut_prefix-eq-some p s rest)

at_boundary-eq-true :
    (o : Option Text) → at_boundary o ≡ true → (rest : Text) × (o ≡ some (b'/' ∷ rest))
unfolding at_boundary
at_boundary-eq-true none h = cc
at_boundary-eq-true (some []) h = cc
at_boundary-eq-true (some (c ∷ rest)) h = (rest, ground arith)

append-eq_self : (p rest : Text) (c : ℕ) → p ++ c ∷ rest ≢ p
append-eq_self [] rest c h = cc
append-eq_self (d ∷ p) rest c h = ground (arith, append-eq_self p rest c)

abbrev IsBelow : Text → Text → Type 0
IsBelow prefix p = (prefix ≢ []) × ((p ≡ prefix) ⊎ ((rest : Text) × (p ≡ prefix ++ b'/' ∷ rest)))

IsBelow-of_path_has_prefix : (p prefix : Text) → path_has_prefix p prefix ≡ true → IsBelow prefix p
unfolding path_has_prefix
IsBelow-of_path_has_prefix p prefix h = elim (Bool-cases (text_beq p prefix)) [
  | inl same ↦ (ground (arith, text_beq_iff prefix []), inl ((text_beq_iff p prefix).0 same))
  | inr other ↦
      let (rest, found) = at_boundary-eq-true (cut_prefix prefix p) (ground arith) in
      (ground (arith, text_beq_iff prefix []), inr (rest, cut_prefix-eq-some prefix p _ found))
]

path_has_prefix_of_IsBelow : (p prefix : Text) → IsBelow prefix p → path_has_prefix p prefix ≡ true
unfolding path_has_prefix
path_has_prefix_of_IsBelow p prefix (ne, inl same) =
    ground (arith, text_beq_iff prefix [], text_beq_iff p prefix)
path_has_prefix_of_IsBelow p prefix (ne, inr (rest, e)) = rw e (
    rw (cut_prefix-append prefix (b'/' ∷ rest))
      (ground (arith, text_beq_iff prefix [], text_beq_iff (prefix ++ b'/' ∷ rest) prefix)))

-- A path falls under a prefix exactly when the prefix is not empty and the path is the prefix or
-- goes on behind it with a "/".
pub path_has_prefix_iff :
    (p prefix : Text)
    → (path_has_prefix p prefix ≡ true)
      ↔ ((prefix ≢ []) × ((p ≡ prefix) ⊎ ((rest : Text) × (p ≡ prefix ++ b'/' ∷ rest))))
path_has_prefix_iff p prefix =
    (IsBelow-of_path_has_prefix p prefix, path_has_prefix_of_IsBelow p prefix)

module _ (buckets : Buckets) where
  lookup-evict :
      (now ttl : ℕ) (ip : Text) (m : Map (IpEntry buckets)) (e : IpEntry buckets)
      → lookup ip m ≡ some e
      → now ≤ e.last + ttl
      → lookup ip (evict buckets now ttl m) ≡ some e
  unfolding lookup evict
  lookup-evict now ttl ip [] e h le = cc
  lookup-evict now ttl ip ((k, old) ∷ m) e h le =
      ground (arith, lookup-evict now ttl ip m e, text_beq_iff k ip)

  pub lookup-touch :
      (now : ℕ) (q ip : Text) (lim : buckets.Limiter) (m : Map (IpEntry buckets))
      → lookup ip (touch buckets now q lim m).0 ≡ (
          if q == ip
          then some (record { lim = (buckets.allow now lim).0; last = now })
          else lookup ip m)
  unfolding touch
  lookup-touch now q ip lim m = lookup-insert q ip _ m

  -- A request of another address leaves an entry alone that has been idle for the TTL at most.
  pub lookup-allow_ip_ne :
      (now : ℕ) (q ip : Text) (p : PerIpLimiter buckets) (e : IpEntry buckets)
      → q ≢ ip
      → lookup ip p.limiters ≡ some e
      → now ≤ e.last + p.idle_ttl
      → lookup ip (allow_ip buckets now q p).0.limiters ≡ some e
  unfolding allow_ip
  lookup-allow_ip_ne now q ip p e ne h le = elim (Option-cases (lookup q p.limiters)) [
    | inl fresh ↦
        rw (fresh, allow_ip)
          (new_lem
            (if ltb 0 p.idle_ttl then evict buckets now p.idle_ttl p.limiters else p.limiters)
            (ground (arith, lookup-evict now p.idle_ttl ip p.limiters e)))
    | inr (old, found) ↦ rw (found, allow_ip) (old_lem old)
  ]
    where
      new_lem :
          (m : Map (IpEntry buckets))
          → lookup ip m ≡ some e
          → lookup ip (touch buckets now q (buckets.new_limiter p.shape) m).0 ≡ some e
      new_lem m k =
          ground (arith, lookup-touch now q ip (buckets.new_limiter p.shape) m, text_beq_iff q ip)

      old_lem :
          (old : IpEntry buckets) → lookup ip (touch buckets now q old.lim p.limiters).0 ≡ some e
      old_lem old = ground (arith, lookup-touch now q ip old.lim p.limiters, text_beq_iff q ip)
