-- ===== src/Consensus/Work.antt =====
-- CalcBlockWork and SelectBestChainByTotalWork.
pub mod Bounds
pub mod Choice
use colossus_x.Prelude.{
  ℕ, ◌+◌, ◌/◌, ◌^◌, Bool, true, false, [], ◌∷◌, arith, ltb, ◌==◌, if◌then◌else◌,
}
use colossus_x.Bytes.{Bytes}
use colossus_x.Bytes.Words.{from_be}
use colossus_x.Hex.{hex_encode}

-- CalcBlockWork: the expected number of hashes, 0 for the zero target
unfoldable pub calc_block_work : Bytes → ℕ
calc_block_work target = let n = from_be target in if n == 0 then 0 else 2 ^ 256 / (n + 1)

-- `<` on Go strings
unfoldable pub bytes_lt : Bytes → Bytes → Bool
bytes_lt a [] = false
bytes_lt [] (y ∷ b) = true
bytes_lt (x ∷ a) (y ∷ b) =
    let rest = bytes_lt a b in if ltb x y then true else if ltb y x then false else rest

-- SelectBestChainByTotalWork
unfoldable pub select_best_chain : Bytes → ℕ → Bytes → ℕ → Bytes
select_best_chain current current_work candidate candidate_work =
    if ltb current_work candidate_work
    then candidate
    else if ltb candidate_work current_work
    then current
    else if bytes_lt (hex_encode candidate) (hex_encode current)
    then candidate
    else current
