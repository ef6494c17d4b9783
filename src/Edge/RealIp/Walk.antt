-- ===== src/Edge/RealIp/Walk.antt =====
-- What `RealIP` resolves, and what a caller can put in front of the header.
use mathlib.Core.List.{reverse-append, reverse-cons}
use poor_man_stack.Base.{
  Text, text_eq, text_beq_iff, true, false, not, ◌≡◌, refl, sym, ap, subst, ◌⊎◌, inl, inr, ◌≢◌,
  List, [], ◌∷◌, ◌++◌, reverse, split, split_from, split_from-append, trim_space, any, All,
  All-append, arith, Bool-cases,
}
use poor_man_stack.Edge.Net.{Net, host_only}
use poor_man_stack.Edge.RealIp.{Request, hops_of, xff, is_trusted, walk, real_ip}

hops_of-append : (xs ys : List Text) → hops_of (xs ++ ys) ≡ hops_of xs ++ hops_of ys
unfolding hops_of
hops_of-append [] ys = refl
hops_of-append (x ∷ xs) ys = ground (arith, hops_of-append xs ys)

hops_of-ne-nil : (xs : List Text) → All (λ hop. hop ≢ []) (hops_of xs)
unfolding hops_of
hops_of-ne-nil [] = tt
hops_of-ne-nil (x ∷ xs) = ground (arith, hops_of-ne-nil xs, text_beq_iff (trim_space x) [])

All-reverse {ℓ κ} : {A : Type ℓ} (P : A → Type κ) (xs : List A) → All P xs → All P (reverse xs)
All-reverse P [] h = tt
All-reverse P (x ∷ xs) (p, h) =
    subst (All P) (sym (reverse-cons x xs))
      (All-append P (reverse xs) (x ∷ []) (All-reverse P xs h) (p, tt))

module _ (net : Net) (trusted : List Text) where
  walk-ne-nil :
      (client : Text) (hops : List Text)
      → All (λ hop. hop ≢ []) hops
      → walk net trusted client hops ≡ []
      → client ≡ []
  unfolding walk
  walk-ne-nil client [] _ e = e
  walk-ne-nil client (hop ∷ hops) (ne, h) e =
      ground (arith, λ (x : walk net trusted hop hops ≡ []). ne (walk-ne-nil hop hops h x))

  -- The last fallback of `RealIP` changes nothing.
  real_ip-walk :
      (r : Request)
      → real_ip net trusted r ≡ walk net trusted (host_only net r.remote_addr) (reverse (xff r))
  unfolding real_ip xff
  real_ip-walk r = ground (
    arith,
    text_beq_iff (walk net trusted (host_only net r.remote_addr) (reverse (xff r))) [],
    walk-ne-nil (host_only net r.remote_addr) (reverse (xff r))
        (All-reverse (λ hop. hop ≢ []) (xff r) (hops_of-ne-nil (split b',' r.forwarded_for))),
  )

  -- The connecting peer, and the hops that the header names from the nearest one on.
  abbrev pub chain : Request → List Text
  chain r = host_only net r.remote_addr ∷ reverse (xff r)

  pub record IsNearestUntrusted (ip : Text) (hops : List Text) : Type 0 where
    pub before : List Text
    pub after : List Text
    pub split_lem : hops ≡ before ++ ip ∷ after
    pub vouched : All (λ hop. is_trusted net trusted hop ≡ true) before
    pub stops : (is_trusted net trusted ip ≡ false) ⊎ (after ≡ [])

  walk-IsNearestUntrusted :
      (client : Text) (hops : List Text)
      → IsNearestUntrusted (walk net trusted client hops) (client ∷ hops)
  unfolding walk
  walk-IsNearestUntrusted client [] = record {
    before = [];
    after = [];
    split_lem = refl;
    vouched = tt;
    stops = inr refl;
  }
  walk-IsNearestUntrusted client (hop ∷ hops) = elim (Bool-cases (is_trusted net trusted client)) [
    | inl yes_trusted ↦
        let ih = walk-IsNearestUntrusted hop hops in
        rw yes_trusted (record {
          before = client ∷ ih.before;
          after = ih.after;
          split_lem = ap (◌∷◌ client) ih.split_lem;
          vouched = (yes_trusted, ih.vouched);
          stops = ih.stops;
        })
    | inr untrusted ↦ rw untrusted (record {
      before = [];
      after = hop ∷ hops;
      split_lem = refl;
      vouched = tt;
      stops = inl untrusted;
    })
  ]

  -- The resolved address is the connecting peer or a hop of X-Forwarded-For; every nearer one is a
  -- trusted proxy, and it is itself not trusted unless it is the farthest of all.
  pub real_ip-IsNearestUntrusted :
      (r : Request) → IsNearestUntrusted (real_ip net trusted r) (chain r)
  real_ip-IsNearestUntrusted r =
      rw (real_ip-walk r) (walk-IsNearestUntrusted (host_only net r.remote_addr) (reverse (xff r)))

  walk-append :
      (client : Text) (hops more : List Text)
      → any (λ hop. not (is_trusted net trusted hop)) (client ∷ hops) ≡ true
      → walk net trusted client (hops ++ more) ≡ walk net trusted client hops
  unfolding walk
  walk-append client [] [] h = refl
  walk-append client [] (m ∷ more) h = ground arith
  walk-append client (hop ∷ hops) more h = ground (arith, walk-append hop hops more)

  xff-prepend :
      (r : Request) (spoofed : Text)
      → reverse (xff (record r { forwarded_for = spoofed ++ b',' ∷ r.forwarded_for }))
        ≡ reverse (xff r) ++ reverse (hops_of (split b',' spoofed))
  unfolding xff split
  xff-prepend r spoofed =
      rw (split_from-append b',' [] spoofed r.forwarded_for, hops_of-append)
        (reverse-append (hops_of (split_from b',' [] spoofed))
          (hops_of (split_from b',' [] r.forwarded_for)))

  -- What a caller writes in front of the X-Forwarded-For header does not change the resolved
  -- address, if the peer or some hop behind it is not a trusted proxy.
  pub real_ip-prepend :
      (r : Request) (spoofed : Text)
      → any (λ hop. not (is_trusted net trusted hop)) (chain r) ≡ true
      → real_ip net trusted (record r { forwarded_for = spoofed ++ b',' ∷ r.forwarded_for })
        ≡ real_ip net trusted r
  real_ip-prepend r spoofed h =
      let r' = record r { forwarded_for = spoofed ++ b',' ∷ r.forwarded_for } in
      rw (real_ip-walk r, real_ip-walk r', xff-prepend r spoofed)
        (walk-append (host_only net r.remote_addr) (reverse (xff r)) _ h)
