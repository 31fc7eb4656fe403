-- ===== src/Resilience/SlotBounds.antt =====
-- No channel of utility/resilience/semaphore.go gives out more slots than it has room for.
use ops_captain.Base.{
  ℕ, zero, suc, ◌≤◌, ◌<◌, ◌≡◌, refl, inl, inr, some, List, [], ◌∷◌, arith, ◌==◌, if◌then◌else◌,
  get_elem?, Option-cases,
}
use ops_captain.Base.Int.{ℤ}
use ops_captain.Resilience.Slots.{
  Wait, sends, release_slot, Calls, SlotOp, acquires, releases, remove_at, step, run, held_on,
  initial,
}

pub record IsWell (s : Calls) : Type 0 where
  pub accounts : (c : ℕ) → s.sem.used c ≡ held_on c s.held
  pub fits : (c : ℕ) → s.sem.used c ≤ s.sem.cap c
  pub unmade : (c : ℕ) → s.sem.made ≤ c → s.sem.used c ≡ 0
  pub sized : (c : ℕ) → s.sem.current ≡ some c → s.sem.cap c ≡ s.sem.size
  pub present : (c : ℕ) → s.sem.current ≡ some c → c < s.sem.made

held_on-remove :
    (c d i : ℕ) (xs : List ℕ)
    → get_elem? xs i ≡ some d
    → held_on c xs
      ≡ (if d == c then suc (held_on c (remove_at xs i)) else held_on c (remove_at xs i))
unfolding held_on
held_on-remove c d i [] h = ground arith
held_on-remove c d zero (x ∷ xs) h = ground arith
held_on-remove c d (suc i) (x ∷ xs) h = ground (arith, held_on-remove c d i xs h)

acquire-IsWell :
    (s : Calls) (max_calls : ℤ) (w : Wait) → IsWell s → IsWell (step s (acquires max_calls w))
unfolding step held_on
acquire-IsWell s m sends v = record {
  accounts = λ c. ground (arith, v.accounts c, v.unmade s.sem.made);
  fits = λ c. ground (arith, v.fits c);
  unmade = λ c h. ground (arith, v.unmade c, v.present c);
  sized = λ c h. ground (arith, v.sized c);
  present = λ c h. ground (arith, v.present c);
}
acquire-IsWell s m w v = record {
  accounts = λ c. ground (arith, v.accounts c, v.unmade s.sem.made);
  fits = λ c. ground (arith, v.fits c);
  unmade = λ c h. ground (arith, v.unmade c, v.present c);
  sized = λ c h. ground (arith, v.sized c);
  present = λ c h. ground (arith, v.present c);
}

release-IsWell : (s : Calls) (i : ℕ) → IsWell s → IsWell (step s (releases i))
unfolding step release_slot
release-IsWell s i v = elim (Option-cases (get_elem? s.held i)) [
  | inl e ↦ rw (e, step) v
  | inr (d, e) ↦
      rw (e, step)
        (record {
          accounts = λ c. ground (
            arith,
            v.accounts c,
            v.accounts d,
            held_on-remove c d i s.held e,
            held_on-remove d d i s.held e,
          );
          fits = λ c. ground (arith, v.fits c);
          unmade = λ c h. ground (arith, v.unmade c);
          sized = λ c h. ground (arith, v.sized c);
          present = λ c h. ground (arith, v.present c);
        })
]

step-IsWell : (s : Calls) (o : SlotOp) → IsWell s → IsWell (step s o)
step-IsWell s (acquires m w) v = acquire-IsWell s m w v
step-IsWell s (releases i) v = release-IsWell s i v

run-IsWell : (s : Calls) (os : List SlotOp) → IsWell s → IsWell (run s os)
unfolding run
run-IsWell s [] v = v
run-IsWell s (o ∷ os) v = run-IsWell (step s o) os (step-IsWell s o v)

initial-IsWell : IsWell initial
unfolding held_on
initial-IsWell = record {
  accounts = λ c. refl;
  fits = λ c. omega arith;
  unmade = λ c h. refl;
  sized = λ c h. ground arith;
  present = λ c h. ground arith;
}

-- After any acquisitions and releases from the start, with every release function called at most
-- once, no more slots of the current channel are outstanding than the size that it was made for,
-- and of any channel no more than it has room for.
pub run-bounded :
    (os : List SlotOp) (c : ℕ)
    → (run initial os).sem.current ≡ some c
    → let s = run initial os in
      (held_on c s.held ≤ s.sem.size) × ((d : ℕ) → held_on d s.held ≤ s.sem.cap d)
run-bounded os c h =
    let v = run-IsWell initial os initial-IsWell in
    (omega (arith, v.accounts c, v.fits c, v.sized c h), λ d. omega (arith, v.accounts d, v.fits d))
