-- ===== src/Edge/Handler/Isolation.antt =====
-- What requests of other clients leave alone: bans and failure counts go by address.
use poor_man_stack.Base.{
  ℕ, Text, text_eq, text_beq_iff, lookup, ◌≡◌, ◌≢◌, refl, ◌∙◌, List, [], ◌∷◌, All, arith,
}
use poor_man_stack.Edge.Net.{Net}
use poor_man_stack.Edge.RealIp.{Request, real_ip}
use poor_man_stack.Edge.Bans.{count, banned}
use poor_man_stack.Edge.Bans.Offences.{record_failure-isolated, banned-keeps}
use poor_man_stack.Edge.Blocklist.{is_blocked}
use poor_man_stack.Edge.Limits.{Buckets}
use poor_man_stack.Edge.Shield.{acquire}
use poor_man_stack.Edge.Handler.{
  Config, EdgeState, Server, rate_limited, watched, shielded, shown_ip, handle,
}

module _ (net : Net) (buckets : Buckets) (server : Server) (cfg : Config) where
  -- The requests, each with its time, handled one after the other.
  unfoldable pub serve_all : List (ℕ × Request) → EdgeState buckets → EdgeState buckets
  serve_all [] s = s
  serve_all ((now, r) ∷ rs) s = serve_all rs (handle net buckets server cfg now r s).0

  -- One state says of an address what the other says.
  abbrev Agree : Text → EdgeState buckets → EdgeState buckets → Type 0
  Agree ip s t =
      (lookup ip s.ledger.until ≡ lookup ip t.ledger.until)
      × (count ip s.ledger.fails ≡ count ip t.ledger.fails)

  watched-keeps :
      (now : ℕ) (client ip : Text) (r : Request) (s : EdgeState buckets)
      → ip ≢ client
      → Agree ip (watched net buckets server cfg now client r s).0 s
  unfolding watched rate_limited
  watched-keeps now client ip r s ne =
      ground (arith, record_failure-isolated cfg.auto_ban now client ip s.ledger ne)

  blocked-keeps :
      (now : ℕ) (ip : Text) (r : Request) (s : EdgeState buckets)
      → ip ≢ shown_ip net cfg r
      → lookup ip (is_blocked net cfg.lists now (shown_ip net cfg r) s.ledger.until).1
        ≡ lookup ip s.ledger.until
  unfolding is_blocked
  blocked-keeps now ip r s ne =
      ground (arith, banned-keeps now (shown_ip net cfg r) ip s.ledger.until ne)

  real_ip-apart :
      (ip : Text) (r : Request)
      → ip ≢ []
      → ip ≢ shown_ip net cfg r
      → ip ≢ real_ip net cfg.trusted_cidrs r
  unfolding shown_ip
  real_ip-apart ip r full ne = ground (arith, text_beq_iff (real_ip net cfg.trusted_cidrs r) [])

  pub handle-keeps :
      (now : ℕ) (ip : Text) (r : Request) (s : EdgeState buckets)
      → ip ≢ []
      → ip ≢ shown_ip net cfg r
      → Agree ip (handle net buckets server cfg now r s).0 s
  unfolding handle shielded
  handle-keeps now ip r s full ne = ground (
    arith,
    blocked-keeps now ip r s ne,
    watched-keeps now (real_ip net cfg.trusted_cidrs r) ip r
        (record s {
          ledger = record {
            fails = s.ledger.fails;
            until = (is_blocked net cfg.lists now (shown_ip net cfg r) s.ledger.until).1;
          };
          sem = (acquire s.sem).0;
        })
        (real_ip-apart ip r full ne),
  )

  serve_all-keeps :
      (ip : Text) (served : List (ℕ × Request)) (s : EdgeState buckets)
      → ip ≢ []
      → All (λ (e : ℕ × Request). ip ≢ shown_ip net cfg e.1) served
      → Agree ip (serve_all served s) s
  unfolding serve_all
  serve_all-keeps ip [] s full others = (refl, refl)
  serve_all-keeps ip ((now, r) ∷ rs) s full (ne, others) =
      let (until, fails) = serve_all-keeps ip rs _ full others in
      let (until', fails') = handle-keeps now ip r s full ne in (until ∙ until', fails ∙ fails')

  -- Requests of other clients, any number of them at any times and with any answers, neither ban an
  -- address nor lift its ban: the blocklist decides about it at every time as before, and the
  -- failures counted against it are the same.
  pub serve_all-isolated :
      (ip : Text) (served : List (ℕ × Request)) (s : EdgeState buckets)
      → ip ≢ []
      → All (λ (e : ℕ × Request). ip ≢ shown_ip net cfg e.1) served
      → ((later : ℕ)
          → (is_blocked net cfg.lists later ip (serve_all served s).ledger.until).0
            ≡ (is_blocked net cfg.lists later ip s.ledger.until).0)
        × (count ip (serve_all served s).ledger.fails ≡ count ip s.ledger.fails)
  unfolding is_blocked banned
  serve_all-isolated ip served s full others =
      let (until, fails) = serve_all-keeps ip served s full others in (λ later. ground arith, fails)
