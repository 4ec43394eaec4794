-- ===== src/Buffer/Run.antt =====
-- Loops that only write: each index has one byte that it may be given.
use mmxisf.Base.{
  ℕ, zero, suc, ◌+◌, ◌≤◌, ◌<◌, ◌≡◌, refl, ap, ◌∙◌, ℕ_discrete, arith, length, get_or, set,
}
use mmxisf.Base.Index.{length-set, get_or-set_self, get_or-set_ne}
use mmxisf.Base.Text.{Bytes}

-- `for (k = lo; k < lo + left; ++k) destination[at k] = value k`
unfoldable pub write_run : (ℕ → ℕ) → (ℕ → ℕ) → ℕ → ℕ → Bytes → Bytes
write_run at value zero k destination = destination
write_run at value (suc left) k destination =
    write_run at value left (k + 1) (set destination (at k) (value k))

-- `destination` has become `out`, where a write only ever stores the byte that `expect` gives for
-- its index: what stood right is kept, and the indices written from `lo` up to `hi` stand right.
pub record Fills (expect : ℕ → ℕ) (at : ℕ → ℕ) (lo hi : ℕ) (destination out : Bytes) : Type 0 where
  pub same_length : length out ≡ length destination
  pub kept : (j : ℕ) → get_or destination j 0 ≡ expect j → get_or out j 0 ≡ expect j
  pub placed : (k : ℕ) → lo ≤ k → k < hi → get_or out (at k) 0 ≡ expect (at k)

module _ (expect at value : ℕ → ℕ) (lo : ℕ) (destination : Bytes)
    (inside : at lo < length destination) (right : value lo ≡ expect (at lo)) where
  hit : get_or (set destination (at lo) (value lo)) (at lo) 0 ≡ expect (at lo)
  hit = get_or-set_self destination (at lo) (value lo) 0 inside ∙ right

  keep :
      (j : ℕ)
      → get_or destination j 0 ≡ expect j
      → get_or (set destination (at lo) (value lo)) j 0 ≡ expect j
  keep j h = elim (ℕ_discrete (at lo) j) [
    | yes here ↦ rw (← here) hit
    | no other ↦ get_or-set_ne destination (at lo) j (value lo) 0 other ∙ h
  ]

  -- One write, and a run of writes behind it.
  Fills-set :
      (left : ℕ) {out : Bytes}
      → Fills expect at (lo + 1) (lo + 1 + left) (set destination (at lo) (value lo)) out
      → Fills expect at lo (lo + suc left) destination out
  Fills-set left rest = record {
    same_length = rest.same_length ∙ length-set destination (at lo) (value lo);
    kept = λ j h. rest.kept j (keep j h);
    placed = λ k p q. elim (ℕ_discrete lo k) [
      | yes here ↦ rw (← here) (rest.kept (at lo) hit)
      | no later ↦ rest.placed k (omega arith) (omega arith)
    ];
  }

pub write_run-Fills :
    (expect at value : ℕ → ℕ) (left lo : ℕ) (destination : Bytes)
    → ((k : ℕ) → lo ≤ k → k < lo + left → (at k < length destination) × (value k ≡ expect (at k)))
    → Fills expect at lo (lo + left) destination (write_run at value left lo destination)
unfolding write_run
write_run-Fills expect at value zero lo destination good = record {
  same_length = refl;
  kept = λ j h. h;
  placed = λ k p q. absurd (omega arith);
}
write_run-Fills expect at value (suc left) lo destination good =
    let here = good lo (omega arith) (omega arith) in
    Fills-set expect at value lo destination here.0 here.1 left (
      write_run-Fills expect at value left (lo + 1) (set destination (at lo) (value lo)) (λ k p q.
        let later = good k (omega arith) (omega arith) in
        (rw (length-set destination (at lo) (value lo)) later.0, later.1)))

-- The bytes that are written matter, and only where the run reaches.
pub write_run-ext :
    (at first second : ℕ → ℕ) (left lo : ℕ) (destination : Bytes)
    → ((k : ℕ) → lo ≤ k → k < lo + left → first k ≡ second k)
    → write_run at first left lo destination ≡ write_run at second left lo destination
unfolding write_run
write_run-ext at first second zero lo destination same = refl
write_run-ext at first second (suc left) lo destination same =
    ap (λ v. write_run at first left (lo + 1) (set destination (at lo) v))
      (same lo (omega arith) (omega arith))
    ∙ write_run-ext at first second left (lo + 1) (set destination (at lo) (second lo))
        (λ k p q. same k (omega arith) (omega arith))

pub length-write_run :
    (at value : ℕ → ℕ) (left lo : ℕ) (destination : Bytes)
    → length (write_run at value left lo destination) ≡ length destination
unfolding write_run
length-write_run at value zero lo destination = refl
length-write_run at value (suc left) lo destination =
    length-write_run at value left (lo + 1) (set destination (at lo) (value lo))
    ∙ length-set destination (at lo) (value lo)
