-- ===== src/Solution/Rounds.antt =====
-- The nodes that a hash reads: every index is a node of the DAG, and a word.
use colossus_x.Prelude.{
  ◌+◌, ◌++◌, ◌||◌, ap, inl, inr, Bool-cases, ℕ, zero, suc, ◌+◌, ◌%◌, ◌^◌, ◌<◌, ◌≡◌, refl, List,
  arith, length, get_elem?, ok, some, ◌==◌,
}
use colossus_x.Bytes.{Bytes, All}
use colossus_x.Crypto.{Crypto, HasSizes}
use colossus_x.Bytes.Words.{le_bytes, from_le-take-lt}
use colossus_x.Hash.{DagAccessor, fnv1a32, round_index, audit_loop, colossus_x_audit_indices}
use colossus_x.Spec.{Spec, node_count}

-- The DAG that the accessor reads holds these cells, and they fill the specification's size.
pub record Holds (spec : Spec) (dag : DagAccessor) (cells : List Bytes) : Type 0 where
  pub filled : 0 < length cells
  pub counted : dag.count ≡ length cells
  pub sized : node_count spec ≡ length cells
  pub reads : (i : ℕ) (cell : Bytes) → get_elem? cells i ≡ some cell → dag.read_node i ≡ ok cell
  pub widths : All (λ cell. length cell ≡ spec.node_size) cells

abbrev pub IsWordBelow : ℕ → ℕ → Type 0
IsWordBelow n i = (i < n) × (i < 2 ^ 32)

fnv1a32-lt : (a b : ℕ) → fnv1a32 a b < 2 ^ 32
unfolding fnv1a32
fnv1a32-lt a b = omega arith

mod_word : (a n : ℕ) → 0 < n → a < 2 ^ 32 → IsWordBelow n (a % n)
mod_word a n p h = omega arith

module _ (c : Crypto) where
  pub round_index_bounds :
      (round : ℕ) (mix : Bytes) (n : ℕ) → 0 < n → IsWordBelow n (round_index c round mix n)
  unfolding round_index
  round_index_bounds round mix n p = mod_word _ n p (fnv1a32-lt _ _)

  audit_loop_bounds :
      (pow : Bytes) (cells n i : ℕ)
      → HasSizes c
      → 0 < cells
      → All (IsWordBelow cells) (audit_loop c pow cells n i)
  unfolding audit_loop
  audit_loop_bounds pow cells zero i sizes p = tt
  audit_loop_bounds pow cells (suc n) i sizes p =
      let digest = sizes.sha3_256_size (pow ++ le_bytes 4 i) in
      (
        mod_word _ cells p (
            from_le-take-lt (c.sha3_256 (pow ++ le_bytes 4 i)) digest.bytes
              (omega (arith, digest.size))),
        audit_loop_bounds pow cells n (i + 1) sizes p,
      )

  length-audit_loop : (pow : Bytes) (cells n i : ℕ) → length (audit_loop c pow cells n i) ≡ n
  unfolding audit_loop
  length-audit_loop pow cells zero i = refl
  length-audit_loop pow cells (suc n) i = ap suc (length-audit_loop pow cells n (i + 1))

  -- ColossusXAuditIndices of a DAG with cells: as many indices as were asked for, all of them cells
  pub audit_indices_bounds :
      (pow : Bytes) (cells n : ℕ)
      → HasSizes c
      → 0 < cells
      → (length (colossus_x_audit_indices c pow cells n) ≡ n)
        × All (IsWordBelow cells) (colossus_x_audit_indices c pow cells n)
  unfolding colossus_x_audit_indices
  audit_indices_bounds pow cells n sizes p = elim (Bool-cases (cells == 0 || n == 0)) [
    | inl none_asked ↦ let nothing : n ≡ 0 = ground arith in rw none_asked (rw nothing, tt)
    | inr some_asked ↦
        rw some_asked (length-audit_loop pow cells n 0, audit_loop_bounds pow cells n 0 sizes p)
  ]
