-- ===== src/Miner.antt =====
-- colossusx/miner.go: the search for a nonce. `hash` is the Hash of a backend on the header and the
-- DAG of the search. Elapsed times, rates and the hexadecimal texts of the result are left out.
pub mod Outcome
pub mod Ending
use colossus_x.Prelude.{
  ℕ, zero, suc, ◌+◌, ◌-◌, ◌^◌, ◌<◌, ◌≡◌, ◌⊎◌, Bool, true, false, not, ◌&&◌, Option, none, some,
  List, [], ◌∷◌, arith, get_elem?, set, ltb, leb, ◌==◌, if◌then◌else◌, Result, ok, err, panic,
  ◌>>=◌, ◌>>◌,
}
use colossus_x.Bytes.{Bytes}
use colossus_x.Nonce.{add_uint64}
use colossus_x.Target.{less_or_equal_be}
use colossus_x.Spec.{Spec, validate}
use colossus_x.Hash.{HashResult}

-- MineResult: the nonce, the count of hashes and the hash
pub record MineResult : Type 0 where
  pub nonce : Option ℕ
  pub hashes : ℕ
  pub hash : HashResult

-- NewMiner: the number of workers, where `cpus` is runtime.NumCPU() and `prepare` the backend's
-- Prepare
unfoldable pub new_miner : ℕ → Result (Unit {0}) → Spec → ℕ → Result ℕ
new_miner cpus prepare spec workers = do
  validate spec
  prepare
  ok (if workers == 0 then cpus else workers)

-- What the goroutines of Mine share, and where each of them is: the nonce that it tries next, or
-- none once it has returned.
pub record Search : Type 0 where
  pub workers : List (Option ℕ)
  pub found : Option (ℕ × HashResult)
  pub total_hashes : ℕ

-- the goroutines started, from worker id
unfoldable pub start_workers : ℕ → ℕ → ℕ → List (Option ℕ)
start_workers start zero id = []
start_workers start (suc n) id = add_uint64 start id ∷ start_workers start n (id + 1)

unfoldable pub start_search : ℕ → ℕ → Search
start_search start workers = record {
  workers = start_workers start workers 0;
  found = none;
  total_hashes = 0;
}

-- `maxNonces > 0` and `uint64(nonce64)-uint64(start64) >= maxNonces`; a nonce is never below the start
abbrev pub exhausted : ℕ → ℕ → ℕ → Bool
exhausted start max_nonces nonce = not (max_nonces == 0) && leb max_nonces (nonce - start)

-- found.CompareAndSwap(false, true): the first hit stays
abbrev pub first_hit : Option (ℕ × HashResult) → ℕ × HashResult → Option (ℕ × HashResult)
first_hit none hit = some hit
first_hit (some old) hit = some old

module _ (hash : ℕ → HashResult) (target : Bytes) (start max_nonces step : ℕ) where
  -- A turn of one goroutine of Mine. The tests of ctx and found come before the hash, so that a
  -- goroutine may still hash after another one has found a nonce.
  pub data Turn : Search → Search → Type 0 where
    quit_found :
        (s : Search) (k nonce : ℕ) (hit : ℕ × HashResult)
        → get_elem? s.workers k ≡ some (some nonce)
        → s.found ≡ some hit
        → Turn s (record s { workers = set s.workers k none })
    quit_exhausted :
        (s : Search) (k nonce : ℕ)
        → get_elem? s.workers k ≡ some (some nonce)
        → exhausted start max_nonces nonce ≡ true
        → Turn s (record s { workers = set s.workers k none })
    hit :
        (s : Search) (k nonce : ℕ)
        → get_elem? s.workers k ≡ some (some nonce)
        → exhausted start max_nonces nonce ≡ false
        → less_or_equal_be (hash nonce).pow256 target ≡ true
        → Turn s (record {
          workers = set s.workers k none;
          found = first_hit s.found (nonce, hash nonce);
          total_hashes = s.total_hashes + 1;
        })
    miss :
        (s : Search) (k nonce : ℕ)
        → get_elem? s.workers k ≡ some (some nonce)
        → exhausted start max_nonces nonce ≡ false
        → less_or_equal_be (hash nonce).pow256 target ≡ false
        → Turn s (record {
          workers = set s.workers k (add_uint64 nonce step);
          found = s.found;
          total_hashes = s.total_hashes + 1;
        })

  pub data Turns : Search → Search → Type 0 where
    done : (s : Search) → Turns s s
    next : (s t u : Search) → Turn s t → Turns t u → Turns s u

-- the loop of mineBatch over the results from index i
unfoldable pub batch_loop : Bytes → ℕ → ℕ → List HashResult → Option MineResult
batch_loop target start i [] = none
batch_loop target start i (h ∷ results) =
    let rest = batch_loop target start (i + 1) results in
    if less_or_equal_be h.pow256 target
    then some (record { nonce = add_uint64 start i; hashes = i + 1; hash = h })
    else rest

-- mineBatch: a count of 0 stands for 100000; an error of the backend is no result
unfoldable pub mine_batch : (ℕ → ℕ → Result (List HashResult)) → Bytes → ℕ → ℕ → Option MineResult
mine_batch hash_batch target start max_nonces =
    let count = if max_nonces == 0 then 100000 else max_nonces in
    elim (hash_batch start count) [
      | ok results ↦ batch_loop target start 0 results
      | err _ ↦ none
      | panic ↦ none
    ]
