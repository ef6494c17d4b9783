-- ===== src/Edge/Shield/Bound.antt =====
-- The bound on the requests in flight.
use poor_man_stack.Base.{
  ◌∙◌, zero, ℕ, suc, ◌≤◌, ◌<◌, ◌≡◌, refl, true, false, List, [], ◌∷◌, ◌++◌, length, Option, none,
  some, arith, ap,
}
use poor_man_stack.Edge.Shield.{
  Semaphore, acquire, release, Traffic, Step, admit, refuse, finish, Reach, here, next, idle,
}

-- Each request that is being served holds one token of a channel of the given capacity.
abbrev pub Holds : ℕ → Option Semaphore → List ℕ → Type 0
Holds max none serving = max ≡ 0
Holds max (some s) serving =
    (s.capacity ≡ max) × (0 < max) × (s.tokens ≡ length serving) × (length serving ≤ max)

abbrev pub IsBounded : ℕ → Traffic → Type 0
IsBounded max t = Holds max t.sem t.serving

Holds-acquire :
    (max r : ℕ) (s : Option Semaphore) (serving : List ℕ)
    → Holds max s serving
    → (acquire s).1 ≡ true
    → Holds max (acquire s).0 (r ∷ serving)
unfolding acquire
Holds-acquire max r none serving h e = h
Holds-acquire max r (some s) serving h e = ground arith

Holds-refuse :
    (max : ℕ) (s : Option Semaphore) (serving : List ℕ)
    → Holds max s serving
    → (acquire s).1 ≡ false
    → Holds max (acquire s).0 serving × (0 < max) × (length serving ≡ max)
unfolding acquire
Holds-refuse max none serving h e = cc
Holds-refuse max (some s) serving h e = ground arith

Holds-release :
    (max : ℕ) (s : Option Semaphore) (serving rest : List ℕ)
    → Holds max s serving
    → length serving ≡ suc (length rest)
    → Holds max (release s) rest
unfolding release
Holds-release max none serving rest h e = h
Holds-release max (some s) serving rest h e = omega arith

length-middle :
    (xs : List ℕ) (y : ℕ) (ys : List ℕ) → length (xs ++ y ∷ ys) ≡ suc (length (xs ++ ys))
length-middle [] y ys = refl
length-middle (x ∷ xs) y ys = ap suc (length-middle xs y ys)

Step-IsBounded : (max : ℕ) {t u : Traffic} → Step t u → IsBounded max t → IsBounded max u
Step-IsBounded max (admit t r e) h = Holds-acquire max r t.sem t.serving h e
Step-IsBounded max (refuse t e) h = (Holds-refuse max t.sem t.serving h e).0
Step-IsBounded max (finish t before r after e) h =
    Holds-release max t.sem t.serving (before ++ after) h
      (ap length e ∙ length-middle before r after)

idle-IsBounded : (max : ℕ) → IsBounded max (idle max)
unfolding idle
idle-IsBounded zero = omega arith
idle-IsBounded (suc max) = ground arith

Reach-IsBounded : (max : ℕ) {t u : Traffic} → IsBounded max t → Reach t u → IsBounded max u
Reach-IsBounded max h here = h
Reach-IsBounded max h (next r s) = Step-IsBounded max s (Reach-IsBounded max h r)

Holds-le :
    (max : ℕ) (s : Option Semaphore) (serving : List ℕ)
    → 0 < max
    → Holds max s serving
    → length serving ≤ max
Holds-le max none serving pos h = absurd (omega arith)
Holds-le max (some s) serving pos h = omega arith

-- However requests arrive and end, no more than the positive limit are served at once, and a
-- request is refused only while exactly that many are.
pub Reach-serving-le :
    (max : ℕ) {t : Traffic}
    → 0 < max
    → Reach (idle max) t
    → (length t.serving ≤ max) × ((acquire t.sem).1 ≡ false → length t.serving ≡ max)
Reach-serving-le max {t} pos r =
    let h = Reach-IsBounded max (idle-IsBounded max) r in
    (Holds-le max t.sem t.serving pos h, λ e. (Holds-refuse max t.sem t.serving h e).2)
