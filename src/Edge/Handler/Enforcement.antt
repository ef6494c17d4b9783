-- ===== src/Edge/Handler/Enforcement.antt =====
-- What the chain of middlewares guarantees as a whole.
use poor_man_stack.Base.{
  ◌<◌, ◌∙◌, ℕ, ◌+◌, ◌≤◌, Text, ◌==◌, text_eq, text_beq_iff, true, false, ◌≡◌, ◌≢◌, List, [], ◌∷◌,
  All, Map, lookup, lookup-insert, some, subst, Bool-cases, inl, inr, arith,
}
use poor_man_stack.Edge.Net.{Net}
use poor_man_stack.Edge.RealIp.{Request, real_ip}
use poor_man_stack.Edge.Bans.{banned, ban, count, is_failure_status}
use poor_man_stack.Edge.Bans.Offences.{record_failure-at}
use poor_man_stack.Edge.Blocklist.{is_blocked}
use poor_man_stack.Edge.Limits.{Buckets}
use poor_man_stack.Edge.Shield.{acquire}
use poor_man_stack.Edge.Handler.{
  Config, EdgeState, Server, rate_limited, watched, shielded, shown_ip, handle,
}
use poor_man_stack.Edge.Handler.Isolation.{serve_all, handle-keeps}

module _ (net : Net) (buckets : Buckets) (server : Server) (cfg : Config) where
  -- A request from an address under a live ban is answered 403 on every path, never reaches the
  -- daemon, and costs no slot, no token and no failure, so it does not prolong the ban.
  handle_of_banned :
      (now : ℕ) (r : Request) (s : EdgeState buckets)
      → (banned now (shown_ip net cfg r) s.ledger.until).0 ≡ true
      → handle net buckets server cfg now r s ≡ (s, record { status = 403; forwarded = false })
  unfolding handle is_blocked banned
  handle_of_banned now r s h = ground arith

  shown_ip-real_ip :
      (r : Request)
      → real_ip net cfg.trusted_cidrs r ≢ []
      → shown_ip net cfg r ≡ real_ip net cfg.trusted_cidrs r
  unfolding shown_ip
  shown_ip-real_ip r ne = ground (arith, text_beq_iff (real_ip net cfg.trusted_cidrs r) [])

  watched-bans :
      (now : ℕ) (ip : Text) (r : Request) (s : EdgeState buckets)
      → ip ≢ []
      → 0 < cfg.auto_ban.threshold
      → cfg.auto_ban.threshold ≤ count ip s.ledger.fails + 1
      → is_failure_status (watched net buckets server cfg now ip r s).1.status ≡ true
      → (watched net buckets server cfg now ip r s).0.ledger.until
        ≡ ban now ip cfg.auto_ban.duration s.ledger.until
  unfolding watched rate_limited
  watched-bans now ip r s ne pos last h =
      ground (arith, text_beq_iff ip [], record_failure-at cfg.auto_ban now ip s.ledger pos last)

  handle-bans :
      (now : ℕ) (r : Request) (s : EdgeState buckets)
      → real_ip net cfg.trusted_cidrs r ≢ []
      → 0 < cfg.auto_ban.threshold
      → cfg.auto_ban.threshold ≤ count (real_ip net cfg.trusted_cidrs r) s.ledger.fails + 1
      → (is_blocked net cfg.lists now (shown_ip net cfg r) s.ledger.until).0 ≡ false
      → is_failure_status (handle net buckets server cfg now r s).1.status ≡ true
      → (handle net buckets server cfg now r s).0.ledger.until
        ≡ ban now
            (real_ip net cfg.trusted_cidrs r)
            cfg.auto_ban.duration
            (is_blocked net cfg.lists now (shown_ip net cfg r) s.ledger.until).1
  unfolding handle shielded is_failure_status
  handle-bans now r s ne pos last passed failed = ground (
    arith,
    watched-bans now (real_ip net cfg.trusted_cidrs r) r
        (record s {
          ledger = record {
            fails = s.ledger.fails;
            until = (is_blocked net cfg.lists now (shown_ip net cfg r) s.ledger.until).1;
          };
          sem = (acquire s.sem).0;
        })
        ne pos last,
  )

  lookup-ban :
      (now : ℕ) (ip : Text) (duration : ℕ) (until : Map ℕ)
      → lookup ip (ban now ip duration until) ≡ some (now + duration)
  unfolding ban
  lookup-ban now ip duration until =
      ground (arith, lookup-insert ip ip (now + duration) until, text_beq_iff ip ip)

  banned_of_lookup :
      (now : ℕ) (ip : Text) (exp : ℕ) (until : Map ℕ)
      → lookup ip until ≡ some exp
      → now ≤ exp
      → (banned now ip until).0 ≡ true
  unfolding banned
  banned_of_lookup now ip exp until e soon = ground arith

  -- No request ends a ban before its time: those of the address itself are refused.
  handle-keeps-ban :
      (now : ℕ) (ip : Text) (exp : ℕ) (r : Request) (s : EdgeState buckets)
      → ip ≢ []
      → now ≤ exp
      → lookup ip s.ledger.until ≡ some exp
      → lookup ip (handle net buckets server cfg now r s).0.ledger.until ≡ some exp
  handle-keeps-ban now ip exp r s full soon e = elim (Bool-cases (ip == shown_ip net cfg r)) [
    | inl own ↦
        let same : ip ≡ shown_ip net cfg r = (text_beq_iff ip (shown_ip net cfg r)).0 own in
        rw
          (handle_of_banned now r s (
            subst (λ x. (banned now x s.ledger.until).0 ≡ true) same
              (banned_of_lookup now ip exp s.ledger.until e soon)))
          e
    | inr other ↦
        let ne : ip ≢ shown_ip net cfg r = ground (arith, text_beq_iff ip (shown_ip net cfg r)) in
        (handle-keeps net buckets server cfg now ip r s full ne).0 ∙ e
  ]

  serve_all-keeps-ban :
      (ip : Text) (exp : ℕ) (served : List (ℕ × Request)) (s : EdgeState buckets)
      → ip ≢ []
      → All (λ (e : ℕ × Request). e.0 ≤ exp) served
      → lookup ip s.ledger.until ≡ some exp
      → lookup ip (serve_all net buckets server cfg served s).ledger.until ≡ some exp
  unfolding serve_all
  serve_all-keeps-ban ip exp [] s full soon e = e
  serve_all-keeps-ban ip exp ((now, r) ∷ rs) s full (first, soon) e =
      serve_all-keeps-ban ip exp rs _ full soon (handle-keeps-ban now ip exp r s full first e)

  -- A request that the blocklist passes, whose resolved address is not empty, and whose failure
  -- status brings the failures of that address to a positive threshold, bans the address: whatever
  -- requests of it and of others are handled from then to the end of the duration, every request
  -- behind them that resolves to it and is no later than that end, on any path, is answered 403, is
  -- not forwarded and leaves the whole edge state as it was.
  pub handle-bans-next :
      (now later : ℕ) (r r' : Request) (served : List (ℕ × Request)) (s : EdgeState buckets)
      → real_ip net cfg.trusted_cidrs r ≢ []
      → 0 < cfg.auto_ban.threshold
      → cfg.auto_ban.threshold ≤ count (real_ip net cfg.trusted_cidrs r) s.ledger.fails + 1
      → (is_blocked net cfg.lists now (shown_ip net cfg r) s.ledger.until).0 ≡ false
      → is_failure_status (handle net buckets server cfg now r s).1.status ≡ true
      → All (λ (e : ℕ × Request). e.0 ≤ now + cfg.auto_ban.duration) served
      → real_ip net cfg.trusted_cidrs r' ≡ real_ip net cfg.trusted_cidrs r
      → later ≤ now + cfg.auto_ban.duration
      → let behind =
          serve_all net buckets server cfg served (handle net buckets server cfg now r s).0 in
        handle net buckets server cfg later r' behind
        ≡ (behind, record { status = 403; forwarded = false })
  handle-bans-next now later r r' served s ne pos last passed failed between same soon =
      let ip = real_ip net cfg.trusted_cidrs r in
      let exp = now + cfg.auto_ban.duration in
      let shown : shown_ip net cfg r' ≡ ip = shown_ip-real_ip r' (rw same ne) ∙ same in
      let struck : lookup ip (handle net buckets server cfg now r s).0.ledger.until ≡ some exp =
        rw (handle-bans now r s ne pos last passed failed) (lookup-ban now ip _ _) in
      handle_of_banned later r' _ (
        rw shown (
          banned_of_lookup later ip exp _ (serve_all-keeps-ban ip exp served _ ne between struck)
            soon))
