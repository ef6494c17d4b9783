-- ===== src/Edge/Bans/Offences.antt =====
-- When the auto-ban strikes, whom, and for how long.
use poor_man_stack.Base.{
  ℕ, ◌+◌, ◌<◌, ◌≤◌, Text, text_beq_iff, Map, lookup, insert, lookup-insert, lookup-delete, ◌≡◌,
  refl, ◌≢◌, List, [], ◌∷◌, length, leb, arith,
}
use poor_man_stack.Edge.Bans.{banned, ban, AutoBan, Ledger, count, record_failure}

-- A fresh ban holds up to its last instant and no longer.
pub banned-ban :
    (now later : ℕ) (ip : Text) (duration : ℕ) (until : Map ℕ)
    → (banned later ip (ban now ip duration until)).0 ≡ leb later (now + duration)
unfolding banned ban
banned-ban now later ip duration until =
    ground (arith, lookup-insert ip ip (now + duration) until, text_beq_iff ip ip)

-- An expired entry is dropped: the answer about an address does not depend on the others.
pub banned-keeps :
    (now : ℕ) (ip other : Text) (until : Map ℕ)
    → other ≢ ip
    → lookup other (banned now ip until).1 ≡ lookup other until
unfolding banned
banned-keeps now ip other until ne =
    ground (arith, lookup-delete ip other until, text_beq_iff ip other)

module _ (cfg : AutoBan) where
  -- Failures of one address, at the times listed, oldest first.
  unfoldable pub offend : Text → List ℕ → Ledger → Ledger
  offend ip [] s = s
  offend ip (now ∷ times) s = offend ip times (record_failure cfg now ip s)

  record_failure-below :
      (now : ℕ) (ip : Text) (s : Ledger)
      → count ip s.fails + 1 < cfg.threshold
      → (count ip (record_failure cfg now ip s).fails ≡ count ip s.fails + 1)
        × ((record_failure cfg now ip s).until ≡ s.until)
  unfolding record_failure
  record_failure-below now ip s h =
      ground (arith, lookup-insert ip ip (count ip s.fails + 1) s.fails, text_beq_iff ip ip)

  pub record_failure-at :
      (now : ℕ) (ip : Text) (s : Ledger)
      → 0 < cfg.threshold
      → cfg.threshold ≤ count ip s.fails + 1
      → (count ip (record_failure cfg now ip s).fails ≡ 0)
        × ((record_failure cfg now ip s).until ≡ ban now ip cfg.duration s.until)
  unfolding record_failure
  record_failure-at now ip s pos h =
      ground
        (arith, lookup-delete ip ip (insert ip (count ip s.fails + 1) s.fails), text_beq_iff ip ip)

  offend-below :
      (ip : Text) (times : List ℕ) (s : Ledger)
      → count ip s.fails + length times < cfg.threshold
      → (count ip (offend ip times s).fails ≡ count ip s.fails + length times)
        × ((offend ip times s).until ≡ s.until)
  unfolding offend
  offend-below ip [] s h = (omega arith, refl)
  offend-below ip (now ∷ times) s h =
      let (counted, same) = record_failure-below now ip s (omega arith) in
      let (counted', same') = offend-below ip times (record_failure cfg now ip s) (omega arith) in
      (omega arith, ground arith)

  -- An address with no failure on record is not banned by fewer failures than the threshold.
  -- The failure that reaches the threshold bans it for the duration, counted from that failure,
  -- and clears its count.
  pub offend-bans :
      (ip : Text) (times : List ℕ) (now : ℕ) (s : Ledger)
      → count ip s.fails ≡ 0
      → length times + 1 ≡ cfg.threshold
      → ((offend ip times s).until ≡ s.until)
        × (count ip (record_failure cfg now ip (offend ip times s)).fails ≡ 0)
        × ((later : ℕ)
            → (banned later ip (record_failure cfg now ip (offend ip times s)).until).0
              ≡ leb later (now + cfg.duration))
  offend-bans ip times now s clean h =
      let (counted, same) = offend-below ip times s (omega arith) in
      let (zero_count, struck) =
        record_failure-at now ip (offend ip times s) (omega arith) (omega arith) in
      (same, zero_count, λ later. rw struck (banned-ban now later ip cfg.duration _))

  -- A failure of one address changes neither the count nor the ban of another.
  pub record_failure-isolated :
      (now : ℕ) (ip other : Text) (s : Ledger)
      → other ≢ ip
      → (count other (record_failure cfg now ip s).fails ≡ count other s.fails)
        × (lookup other (record_failure cfg now ip s).until ≡ lookup other s.until)
  unfolding record_failure
  record_failure-isolated now ip other s ne = ground (
    arith,
    lookup-delete ip other (insert ip (count ip s.fails + 1) s.fails),
    lookup-insert ip other (count ip s.fails + 1) s.fails,
    lookup-insert ip other (now + cfg.duration) s.until,
    text_beq_iff ip other,
  )

  -- No address keeps a count that should have banned it.
  abbrev pub CountsBelow : Ledger → Type 0
  CountsBelow s = (ip : Text) → count ip s.fails < cfg.threshold

  pub record_failure-CountsBelow :
      (now : ℕ) (ip : Text) (s : Ledger)
      → 0 < cfg.threshold
      → CountsBelow s
      → CountsBelow (record_failure cfg now ip s)
  unfolding record_failure
  record_failure-CountsBelow now ip s pos h other = ground (
    arith,
    h other,
    lookup-delete ip other (insert ip (count ip s.fails + 1) s.fails),
    lookup-insert ip other (count ip s.fails + 1) s.fails,
    text_beq_iff ip other,
  )
