-- ===== src/Edge/Shield.antt =====
-- `pmcluster/internal/edgeproxy/shield.go`: the semaphore of requests in flight, as a step relation
-- over the requests that hold a slot. A limit of 0 stands for every limit that is not positive.
pub mod Bound
use poor_man_stack.Base.{
  ℕ, suc, ◌+◌, ◌-◌, ◌≡◌, Bool, true, false, List, [], ◌∷◌, ◌++◌, ltb, leb, if◌then◌else◌, length,
  Option, none, some,
}

-- The buffered channel: its capacity and the tokens in it. `none` is the nil channel.
pub record Semaphore : Type 0 where
  pub capacity : ℕ
  pub tokens : ℕ

unfoldable pub new_shield : ℕ → Option Semaphore
new_shield max_concurrent =
    if leb max_concurrent 0 then none else some (record { capacity = max_concurrent; tokens = 0 })

-- `case sh.sem <- struct{}{}`, or `default`: whether a slot was taken.
unfoldable pub acquire : Option Semaphore → Option Semaphore × Bool
acquire none = (none, true)
acquire (some s) =
    if ltb s.tokens s.capacity
    then (some (record s { tokens = s.tokens + 1 }), true)
    else (some s, false)

-- The deferred `<-sh.sem`.
unfoldable pub release : Option Semaphore → Option Semaphore
release none = none
release (some s) = some (record s { tokens = s.tokens - 1 })

-- The shield, the requests that are being served, and how many were refused.
pub record Traffic : Type 0 where
  pub sem : Option Semaphore
  pub serving : List ℕ
  pub refused : ℕ

pub data Step : Traffic → Traffic → Type 0 where
  -- A request arrives: it is served, or it is answered 503 at once.
  admit :
      (t : Traffic) (r : ℕ)
      → (acquire t.sem).1 ≡ true
      → Step t (record t { sem = (acquire t.sem).0; serving = r ∷ t.serving })
  refuse :
      (t : Traffic)
      → (acquire t.sem).1 ≡ false
      → Step t (record t { sem = (acquire t.sem).0; refused = t.refused + 1 })
  -- Any request that is being served ends.
  finish :
      (t : Traffic) (before : List ℕ) (r : ℕ) (after : List ℕ)
      → t.serving ≡ before ++ r ∷ after
      → Step t (record t { sem = release t.sem; serving = before ++ after })

pub data Reach (t : Traffic) : Traffic → Type 0 where
  here : Reach t t
  next : {u v : Traffic} → Reach t u → Step u v → Reach t v

unfoldable pub idle : ℕ → Traffic
unfolding new_shield
idle max_concurrent = record { sem = new_shield max_concurrent; serving = []; refused = 0 }
