-- ===== src/Tests/Miner.antt =====
-- Two goroutines from nonce 5: a search of two nonces that finds nothing, and one that finds 6.
use colossus_x.Prelude.{
  ℕ, zero, suc, ◌≡◌, refl, false, none, some, [], ◌∷◌, arith, inr, ◌≤◌, ◌*◌, ◌+◌, ◌^◌, ◌⊎◌,
}
use colossus_x.Bytes.{zeros}
use colossus_x.Nonce.{add_uint64}
use colossus_x.Target.{less_or_equal_be}
use colossus_x.Hash.{HashResult}
use colossus_x.Miner.{
  Search, start_workers, start_search, Turn, Turns, quit_exhausted, hit, miss, done, next,
}
use colossus_x.Miner.Ending.{turn_count, Turns-end}
use colossus_x.Miner.Outcome.{AllStopped, IsHit, Turns-AllStopped, Turns-IsHit}

-- the hash of a nonce is its byte
abbrev a_hash : ℕ → HashResult
a_hash n = record { pow256 = n ∷ []; full512 = zeros 64 }

abbrev both_stopped : Search
both_stopped = record { workers = none ∷ none ∷ []; found = none; total_hashes = 2 }

a_search : Turns a_hash (4 ∷ []) 5 2 2 (start_search 5 2) both_stopped
unfolding start_search start_workers add_uint64 less_or_equal_be
a_search = next _ _ _ (miss _ 0 5 refl refl refl) (
    next _ _ _ (miss _ 1 6 refl refl refl) (
      next _ _ _ (quit_exhausted _ 0 7 refl refl)
        (next _ _ _ (quit_exhausted _ 1 8 refl refl) (done _))))

both_stopped-AllStopped : AllStopped both_stopped
both_stopped-AllStopped zero m e = absurd cc
both_stopped-AllStopped (suc zero) m e = absurd cc
both_stopped-AllStopped (suc (suc k)) m e = absurd cc

Turns-AllStopped_example : less_or_equal_be (a_hash 6).pow256 (4 ∷ []) ≡ false
Turns-AllStopped_example =
    Turns-AllStopped a_hash (4 ∷ []) 5 2 2 both_stopped (omega arith) a_search
      both_stopped-AllStopped refl 6 (omega arith, omega arith, inr (omega arith))

Turns-end_example :
    (turn_count a_hash (4 ∷ []) 5 2 2 (start_search 5 2) both_stopped a_search ≤ 2 * (2 ^ 64 + 1))
    × (AllStopped both_stopped ⊎ ((t : Search) × Turn a_hash (4 ∷ []) 5 2 2 both_stopped t))
Turns-end_example = Turns-end a_hash (4 ∷ []) 5 2 2 both_stopped a_search (omega arith)

abbrev one_found : Search
one_found = record { workers = some 5 ∷ none ∷ []; found = some (6, a_hash 6); total_hashes = 1 }

a_find : Turns a_hash (9 ∷ []) 5 0 2 (start_search 5 2) one_found
unfolding start_search start_workers add_uint64 less_or_equal_be
a_find = next _ _ _ (hit _ 1 6 refl refl refl) (done _)

Turns-IsHit_example : IsHit a_hash (9 ∷ []) 5 0 2 (6, a_hash 6)
Turns-IsHit_example =
    Turns-IsHit a_hash (9 ∷ []) 5 0 2 one_found (6, a_hash 6) (omega arith) a_find refl
