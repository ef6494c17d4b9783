-- ===== src/Tests/EdgeRuns.antt =====
-- The edge with a network package of one address to a network, and buckets that only run empty.
use poor_man_stack.Base.{
  ℕ, ◌-◌, ◌≤◌, Text, codes, ◌==◌, text_eq, lookup, Bool, true, false, ◌≡◌, refl, ◌≢◌, ◌↔◌, ◌⊎◌,
  none, some, List, [], ◌∷◌, ◌++◌, split, split_from, trim_space, trim_left, is_space,
  if◌then◌else◌, arith, ltb, leb, length, cut_prefix, cut_at, is_some, Option, insert, delete,
}
use poor_man_stack.Edge.Net.{Net, host_only, in_any, parse_nets}
use poor_man_stack.Edge.RealIp.{Request, is_trusted, real_ip, walk, xff, hops_of}
use poor_man_stack.Edge.RealIp.Walk.{
  chain, IsNearestUntrusted, real_ip-IsNearestUntrusted, real_ip-prepend,
}
use poor_man_stack.Edge.Bans.{
  AutoBan, Ledger, new_ban_store, banned, ban, count, record_failure, is_failure_status,
}
use poor_man_stack.Edge.Bans.Offences.{offend, offend-bans, CountsBelow, record_failure-CountsBelow}
use poor_man_stack.Edge.Blocklist.{Lists, is_blocked, outside, listed}
use poor_man_stack.Edge.Blocklist.Passing.{Passes, is_blocked-iff_Passes}
use poor_man_stack.Edge.Limits.{
  Buckets, PerIpLimiter, evict, touch, allow_ip, at_boundary, path_has_prefix, limited, rate_limit,
}
use poor_man_stack.Edge.Limits.Isolation.{path_has_prefix_iff}
use poor_man_stack.Edge.Limits.Refinement.{times_of, dedicated, serve, serve-dedicated}
use poor_man_stack.Edge.Shield.{
  Traffic, Reach, admit, here, next, idle, new_shield, acquire, release,
}
use poor_man_stack.Edge.Shield.Bound.{Reach-serving-le}
use poor_man_stack.Edge.Handler.{
  Config, EdgeState, Route, Server, routes, dispatch, rate_limited, watched, shielded, shown_ip,
  handle,
}
use poor_man_stack.Edge.Handler.Isolation.{serve_all, serve_all-isolated}
use poor_man_stack.Edge.Handler.Enforcement.{handle-bans-next}

-- A network is written as its only address, and a peer without a port.
abbrev single : Net
single = record {
  Ip = Text;
  Cidr = Text;
  parse_ip = λ t. if t == [] then none else some t;
  parse_cidr = λ t. if t == [] then none else some t;
  contains = λ n ip. n == ip;
  split_host_port = λ t. none;
}

abbrev draw : ℕ → ℕ × Bool
draw n = (n - 1, ltb 0 n)

-- A bucket of the given number of tokens, never filled again.
abbrev draining : Buckets
draining = record { Limiter = ℕ; Shape = ℕ; new_limiter = λ n. n; allow = λ now n. draw n }

abbrev proxies : List Text
proxies = codes "10.0.0.1" ∷ codes "10.0.0.2" ∷ []

abbrev behind_proxy : Request
behind_proxy = record {
  remote_addr = codes "10.0.0.1";
  forwarded_for = codes "8.8.8.8, 10.0.0.2";
  method = codes "GET";
  path = codes "/api/stacks";
}

abbrev strict : AutoBan
strict = record { threshold = 1; duration = 10 }

abbrev three_strikes : AutoBan
three_strikes = record { threshold = 3; duration = 10 }

abbrev open_lists : Lists
open_lists = record { banned_cidrs = codes "9.9.9.9" ∷ []; allowed_cidrs = [] }

abbrev cfg : Config
cfg = record { trusted_cidrs = proxies; lists = open_lists; auto_ban = strict }

abbrev five_each : PerIpLimiter draining
five_each = record { limiters = []; shape = 5; idle_ttl = 100 }

abbrev fresh : EdgeState draining
fresh = record {
  ledger = record { fails = []; until = new_ban_store };
  rate = record { api = five_each; webhook = five_each };
  sem = none;
}

abbrev client : Text
client = codes "8.8.8.8"

edge : Unit {0}
unfolding real_ip walk xff hops_of split split_from trim_space trim_left is_space is_trusted
    host_only in_any parse_nets banned ban count record_failure is_failure_status offend is_blocked
    outside listed evict touch allow_ip at_boundary path_has_prefix limited rate_limit new_shield
    acquire release idle routes dispatch rate_limited watched shielded shown_ip handle serve_all
    cut_at lookup insert delete cut_prefix serve
edge = tt

real_ip_run : real_ip single proxies behind_proxy ≡ client
unfolding edge
real_ip_run = refl

real_ip-IsNearestUntrusted_example :
    IsNearestUntrusted single proxies
      (real_ip single proxies behind_proxy)
      (chain single proxies behind_proxy)
real_ip-IsNearestUntrusted_example = real_ip-IsNearestUntrusted single proxies behind_proxy

real_ip-prepend_example :
    real_ip single proxies
      (record behind_proxy { forwarded_for = codes "6.6.6.6" ++ b',' ∷ codes "8.8.8.8, 10.0.0.2" })
    ≡ real_ip single proxies behind_proxy
unfolding edge
real_ip-prepend_example = real_ip-prepend single proxies behind_proxy (codes "6.6.6.6") refl

-- The method of the route is the request's, or any.
abbrev has_method : Option Text → Text → Bool
has_method none method = true
has_method (some m) method = m == method

-- A pattern is a path, or what stands before its "*".
abbrev has_path : Text → Text → Bool
has_path pattern path = elim (cut_at b'*' pattern) [
  | none ↦ pattern == path
  | some (prefix, after) ↦ is_some (cut_prefix prefix path)
]

abbrev first_route : List Route → Text → Text → Option ℕ
first_route [] method path = some 404
first_route (route ∷ rest) method path =
    let other = first_route rest method path in
    if has_path route.pattern path
    then (if has_method route.method method then none else some 405)
    else other

-- A daemon that refuses every request.
abbrev refusing : Server
refusing = record { unrouted = first_route; upstream = λ r. 401 }

abbrev health_check : Request
health_check = record behind_proxy { path = codes "/health" }

-- No route has the path: the router answers, the daemon does not, and no failure is counted.
unrouted_run :
    (handle single draining refusing cfg 5 (record behind_proxy { path = codes "/ui" }) fresh).1
    ≡ record { status = 404; forwarded = false }
unfolding edge
unrouted_run = refl

abbrev visitor : Request
visitor = record behind_proxy { forwarded_for = codes "1.1.1.1" }

abbrev between : List (ℕ × Request)
between = (8, health_check) ∷ (9, visitor) ∷ []

handle-bans-next_example :
    let behind =
      serve_all single draining refusing cfg between
        (handle single draining refusing cfg 5 behind_proxy fresh).0 in
    handle single draining refusing cfg 15 health_check behind
    ≡ (behind, record { status = 403; forwarded = false })
unfolding edge
handle-bans-next_example =
    handle-bans-next single draining refusing cfg 5 15 behind_proxy health_check between fresh
      (λ e. cc e) (omega arith) (omega arith) refl refl (omega arith) refl (omega arith)

serve_all-isolated_example :
    ((later : ℕ)
      → (is_blocked single cfg.lists later client
          (serve_all single draining refusing cfg ((9, visitor) ∷ []) fresh).ledger.until).0
        ≡ (is_blocked single cfg.lists later client fresh.ledger.until).0)
    × (count client (serve_all single draining refusing cfg ((9, visitor) ∷ []) fresh).ledger.fails
        ≡ count client fresh.ledger.fails)
unfolding edge
serve_all-isolated_example =
    serve_all-isolated single draining refusing cfg client ((9, visitor) ∷ []) fresh (λ e. cc e)
      ((λ e. cc e), tt)

abbrev clean : Ledger
clean = record { fails = []; until = [] }

abbrev neighbour : Text
neighbour = codes "1.1.1.1"

record_failure-CountsBelow_example :
    CountsBelow three_strikes (record_failure three_strikes 4 client clean)
unfolding edge
record_failure-CountsBelow_example =
    record_failure-CountsBelow three_strikes 4 client clean (omega arith) (λ ip. omega arith)

offend-bans_example :
    ((offend three_strikes client (1 ∷ 2 ∷ []) clean).until ≡ clean.until)
    × (count client
          (record_failure three_strikes 4 client
            (offend three_strikes client (1 ∷ 2 ∷ []) clean)).fails
        ≡ 0)
    × ((later : ℕ)
        → (banned later client
            (record_failure three_strikes 4 client
              (offend three_strikes client (1 ∷ 2 ∷ []) clean)).until).0
          ≡ leb later 14)
unfolding count lookup
offend-bans_example = offend-bans three_strikes client (1 ∷ 2 ∷ []) 4 clean refl refl

is_blocked-iff_Passes_example :
    ((is_blocked single open_lists 3 client []).0 ≡ false) ↔ Passes single open_lists 3 client []
is_blocked-iff_Passes_example = is_blocked-iff_Passes single open_lists 3 client []

path_has_prefix_iff_example : (path_has_prefix (codes "/webhook/ci") (codes "/webhook") ≡ true) ↔ (
    (codes "/webhook" ≢ [])
    × ((codes "/webhook/ci" ≡ codes "/webhook")
        ⊎ ((rest : Text) × (codes "/webhook/ci" ≡ codes "/webhook" ++ b'/' ∷ rest))))
path_has_prefix_iff_example = path_has_prefix_iff (codes "/webhook/ci") (codes "/webhook")

abbrev visits : List (ℕ × Text)
visits = (20, neighbour) ∷ (90, client) ∷ (150, neighbour) ∷ []

serve-dedicated_example :
    serve draining client ((1, client) ∷ visits) five_each
    ≡ dedicated draining (1 ∷ times_of client visits) 5
unfolding edge
serve-dedicated_example =
    serve-dedicated draining client 1 visits five_each refl
      (omega arith, (omega arith, (omega arith, tt)))

abbrev one_served : Traffic
one_served = record {
  sem = some (record { capacity = 1; tokens = 1 });
  serving = 7 ∷ [];
  refused = 0;
}

one_served-Reach : Reach (idle 1) one_served
unfolding edge
one_served-Reach = next here (admit (idle 1) 7 refl)

Reach-serving-le_example :
    (length one_served.serving ≤ 1)
    × ((acquire one_served.sem).1 ≡ false → length one_served.serving ≡ 1)
Reach-serving-le_example = Reach-serving-le 1 (omega arith) one_served-Reach
