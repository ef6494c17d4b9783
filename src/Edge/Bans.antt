-- ===== src/Edge/Bans.antt =====
-- `banStore` and `autoBan` of `pmcluster/internal/edgeproxy/blocklist.go`. Times and durations are
-- nanoseconds; a threshold of 0 stands for every threshold that is not positive.
pub mod Offences
use poor_man_stack.Base.{
  ℕ, ◌+◌, Text, Map, lookup, insert, delete, Bool, true, false, ◌||◌, ◌==◌, nat_eq, [], Option,
  none, some, ltb, leb, if◌then◌else◌,
}

abbrev pub new_ban_store : Map ℕ
new_ban_store = []

-- `banned`: the answer, and the store, from which an expired entry is deleted.
unfoldable pub banned : ℕ → Text → Map ℕ → Bool × Map ℕ
banned now ip until = elim (lookup ip until) [
  | none ↦ (false, until)
  | some exp ↦ if ltb exp now then (false, delete ip until) else (true, until)
]

unfoldable pub ban : ℕ → Text → ℕ → Map ℕ → Map ℕ
ban now ip duration until = insert ip (now + duration) until

pub record AutoBan : Type 0 where
  pub threshold : ℕ
  pub duration : ℕ

-- The failures counted for each address, and the store that the blocklist shares.
pub record Ledger : Type 0 where
  pub fails : Map ℕ
  pub until : Map ℕ

-- A read of a Go map gives 0 for a missing key.
unfoldable pub count : Text → Map ℕ → ℕ
count ip fails = elim (lookup ip fails) [ none ↦ 0 | some n ↦ n ]

unfoldable pub record_failure : AutoBan → ℕ → Text → Ledger → Ledger
unfolding ban count
record_failure cfg now ip s =
    if leb cfg.threshold 0
    then s
    else let n = count ip s.fails + 1 in
      let fails = insert ip n s.fails in
      if leb cfg.threshold n
      then record { fails = delete ip fails; until = ban now ip cfg.duration s.until }
      else record s { fails = fails }

-- 429, 401 or 403.
unfoldable pub is_failure_status : ℕ → Bool
is_failure_status status = status == 429 || status == 401 || status == 403
