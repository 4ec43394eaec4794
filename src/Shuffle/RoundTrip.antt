-- ===== src/Shuffle/RoundTrip.antt =====
-- What the writer shuffles the reader restores, whatever the cut into subblocks.
use native.Mathlib.Nat.{add_assoc, add-zero}
use mmxisf.Base.{
  ℕ, zero, suc, ◌+◌, ◌≤◌, ◌<◌, ◌≡◌, refl, ap, ◌∙◌, ℕ_discrete, true, [], ◌∷◌, arith, length, get_or,
  set,
}
use mmxisf.Base.Index.{length-set, get_or-set_self, get_or-set_ne}
use mmxisf.Base.Text.{Bytes}
use mmxisf.Base.Error.{ok, StopToken, Never}
use mmxisf.Buffer.{Agree, Restores, Restores-eq}
use mmxisf.Shuffle.{
  plain_index, shuffle_loop, shuffled_range, scatter_loop, scatter_unshuffled_bytes, finish_scatter,
}
use mmxisf.Shuffle.Permute.{plain_index-lt, shuffled_index, plain_index-shuffled_index}

-- The places that the shuffle fills.
abbrev pub Unshuffles : Bytes → ℕ → ℕ → ℕ → Bytes → Bytes → Type 0
Unshuffles input item_size = Restores input (plain_index (length input) item_size)

module _ (stop : StopToken) (never : Never stop) (input : Bytes) (item_size : ℕ)
    (pos : 0 < item_size) where
  set-Agree :
      (out : Bytes) (i j : ℕ)
      → i < length input
      → length out ≡ length input
      → Agree out input j
      → Agree (set out i (get_or input i 0)) input j
  set-Agree out i j h e a = elim (ℕ_discrete i j) [
    | yes same ↦ rw (← same) (get_or-set_self out i (get_or input i 0) 0 (omega arith))
    | no other ↦ get_or-set_ne out i j (get_or input i 0) 0 other ∙ a
  ]

  scatter_suc :
      (left base local : ℕ) (out : Bytes) {result : Bytes}
      → length out ≡ length input
      → let i = plain_index (length input) item_size (base + local) in
        scatter_loop stop item_size base
            (shuffle_loop input item_size left (base + (local + 1)))
            (local + 1)
            (set out i (get_or input i 0))
          ≡ (true, result)
        → scatter_loop stop item_size base
            (shuffle_loop input item_size (suc left) (base + local))
            local
            out
          ≡ (true, result)
  unfolding scatter_loop shuffle_loop
  scatter_suc left base local out e h =
      rw (e, add_assoc base local 1) (ground (arith, never (local ∷ [])))

  pub scatter_loop-Restores :
      (left base local : ℕ) (out : Bytes)
      → length out ≡ length input
      → base + local + left ≤ length input
      → (result : Bytes) × (scatter_loop stop item_size base
            (shuffle_loop input item_size left (base + local))
            local
            out
          ≡ (true, result))
        × Unshuffles input item_size (base + local) (base + local + left) out result
  unfolding scatter_loop shuffle_loop
  scatter_loop-Restores zero base local out e h = (
    out,
    refl,
    record { same_length = e; kept = λ j a. a; placed = λ g p q. absurd (omega arith) },
  )
  scatter_loop-Restores (suc left) base local out e h =
      let i = plain_index (length input) item_size (base + local) in
      let inside : i < length input =
        plain_index-lt (length input) item_size (base + local) pos (omega arith) in
      let out' = set out i (get_or input i 0) in
      let (result, runs, rest) =
        scatter_loop-Restores left base (local + 1) out' (length-set out i _ ∙ e) (omega arith) in
      (
        result,
        scatter_suc left base local out e runs,
        record {
          same_length = rest.same_length;
          kept = λ j a. rest.kept j (set-Agree out i j inside e a);
          placed = λ g p q. elim (ℕ_discrete (base + local) g) [
            | yes same ↦ rest.kept _ (rw (← same) (get_or-set_self out i _ 0 (omega arith)))
            | no other ↦ rest.placed g (omega arith) (omega arith)
          ];
        },
      )

length-shuffle_loop :
    (input : Bytes) (item_size left offset : ℕ)
    → length (shuffle_loop input item_size left offset) ≡ left
unfolding shuffle_loop
length-shuffle_loop input item_size zero offset = refl
length-shuffle_loop input item_size (suc left) offset =
    ap suc (length-shuffle_loop input item_size left (offset + 1))

pub scatter-shuffled_range :
    (stop : StopToken) (input out : Bytes) (item_size offset size : ℕ)
    → Never stop
    → 0 < item_size
    → offset + size ≤ length input
    → length out ≡ length input
    → (shuffled result : Bytes) × (shuffled_range input item_size offset size ≡ ok shuffled)
      × (scatter_unshuffled_bytes shuffled out item_size offset stop ≡ (ok size, result))
      × Unshuffles input item_size offset (offset + size) out result
unfolding shuffled_range scatter_unshuffled_bytes finish_scatter
scatter-shuffled_range stop input out item_size offset size never pos fits same =
    let (result, runs, restores) =
      scatter_loop-Restores stop never input item_size pos size offset 0 out same (omega arith) in
    (
      shuffle_loop input item_size size offset,
      result,
      ground arith,
      ground (arith, length-shuffle_loop input item_size size offset, rw add-zero at runs),
      rw add-zero at restores,
    )

pub plain_index-onto : (n s j : ℕ) → 0 < s → j < n → (g : ℕ) × (g < n) × (plain_index n s g ≡ j)
plain_index-onto n s j pos h =
    let (inside, back) = plain_index-shuffled_index n s j pos h in
    (shuffled_index n s j, inside, back)

-- The shuffle of a whole block reaches every byte of it.
pub Unshuffles-eq :
    {input out out' : Bytes} (item_size : ℕ)
    → 0 < item_size
    → Unshuffles input item_size 0 (length input) out out'
    → out' ≡ input
Unshuffles-eq {input} item_size pos r = Restores-eq (λ j h. plain_index-onto _ item_size j pos h) r
