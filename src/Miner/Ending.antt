-- ===== src/Miner/Ending.antt =====
-- The search of Mine comes to an end, however its goroutines interleave.
use colossus_x.Prelude.{
  ℕ, zero, suc, ◌+◌, ◌-◌, ◌*◌, ◌^◌, ◌<◌, ◌≤◌, ◌≡◌, ◌⊎◌, inl, inr, refl, ap, Bool-cases, Option,
  none, some, List, [], ◌∷◌, arith, length, get_elem?,
}
use colossus_x.Prelude.Sums.{total, total-set, total-le}
use colossus_x.Bytes.{Bytes}
use colossus_x.Nonce.{add_uint64}
use colossus_x.Target.{less_or_equal_be}
use colossus_x.Hash.{HashResult}
use colossus_x.Miner.{
  Search, start_workers, start_search, exhausted, Turn, Turns, quit_found, quit_exhausted, hit,
  miss, done, next,
}
use colossus_x.Miner.Outcome.{AllStopped}

-- the turns that a worker has left at most
abbrev pub turns_left : Option ℕ → ℕ
turns_left none = 0
turns_left (some nonce) = 2 ^ 64 - nonce + 1

abbrev pub search_left : Search → ℕ
search_left s = total turns_left s.workers

step_left : (m step : ℕ) → 0 < step → turns_left (add_uint64 m step) + 1 ≤ turns_left (some m)
unfolding add_uint64
step_left m step p = ground (arith, p)

turns_left-le : (o : Option ℕ) → turns_left o ≤ 2 ^ 64 + 1
turns_left-le none = omega arith
turns_left-le (some m) = omega arith

-- a worker that has not returned, if there is one
running :
    (ws : List (Option ℕ))
    → ((k m : ℕ) → get_elem? ws k ≡ some (some m) → ⊥)
      ⊎ ((k m : ℕ) × (get_elem? ws k ≡ some (some m)))
running [] = inl (λ k m e. cc)
running (some m ∷ ws) = inr (0, m, refl)
running (none ∷ ws) = elim (running ws) [
  | inl stopped ↦ inl (later stopped)
  | inr (k, m, e) ↦ inr (suc k, m, e)
]
  where
    later :
        ((k m : ℕ) → get_elem? ws k ≡ some (some m) → ⊥)
        → (k m : ℕ) → get_elem? (none ∷ ws) k ≡ some (some m)
        → ⊥
    later stopped zero m e = cc
    later stopped (suc k) m e = stopped k m e

module _ (hash : ℕ → HashResult) (target : Bytes) (start max_nonces step : ℕ) where
  -- the turns of a run
  abbrev pub turn_count : (s t : Search) → Turns hash target start max_nonces step s t → ℕ
  turn_count _ _ (done s) = 0
  turn_count _ _ (next s t u a r) = suc (turn_count t u r)

  Turn-left :
      (s t : Search)
      → 0 < step
      → Turn hash target start max_nonces step s t
      → search_left t + 1 ≤ search_left s
  Turn-left _ _ p (quit_found s k m h at f) =
      omega (arith, total-set turns_left s.workers k (some m) none at)
  Turn-left _ _ p (quit_exhausted s k m at e) =
      omega (arith, total-set turns_left s.workers k (some m) none at)
  Turn-left _ _ p (hit s k m at left meets) =
      omega (arith, total-set turns_left s.workers k (some m) none at)
  Turn-left _ _ p (miss s k m at left missed) =
      omega (
        arith,
        total-set turns_left s.workers k (some m) (add_uint64 m step) at,
        step_left m step p,
      )

  Turns-left :
      (s t : Search) (run : Turns hash target start max_nonces step s t)
      → 0 < step
      → search_left t + turn_count s t run ≤ search_left s
  Turns-left _ _ (done s) p = omega arith
  Turns-left _ _ (next s t u a r) p = omega (arith, Turn-left s t p a, Turns-left t u r p)

  -- a search whose workers have not all returned can go on
  AllStopped-or-Turn :
      (s : Search) → AllStopped s ⊎ ((t : Search) × Turn hash target start max_nonces step s t)
  AllStopped-or-Turn s = elim (running s.workers) [
    | inl stopped ↦ inl stopped
    | inr (k, m, at) ↦ inr (turn k m at)
  ]
    where
      turn :
          (k m : ℕ)
          → get_elem? s.workers k ≡ some (some m)
          → (t : Search) × Turn hash target start max_nonces step s t
      turn k m at = elim (Bool-cases (exhausted start max_nonces m)) [
        | inl past ↦ (_, quit_exhausted s k m at past)
        | inr left ↦ elim (Bool-cases (less_or_equal_be (hash m).pow256 target)) [
          | inl meets ↦ (_, hit s k m at left meets)
          | inr missed ↦ (_, miss s k m at left missed)
        ]
      ]

length-start_workers : (start n id : ℕ) → length (start_workers start n id) ≡ n
unfolding start_workers
length-start_workers start zero id = refl
length-start_workers start (suc n) id = ap suc (length-start_workers start n (id + 1))

-- Mine ends: for every number of workers a run of the goroutines takes at most 2^64 + 1 turns for
-- each of them, whatever the order, and as long as one has not returned another turn is possible.
pub Turns-end :
    (hash : ℕ → HashResult) (target : Bytes) (start max_nonces workers : ℕ) (u : Search)
    (run : Turns hash target start max_nonces workers (start_search start workers) u)
    → 0 < workers
    → (turn_count hash target start max_nonces workers (start_search start workers) u run
        ≤ workers * (2 ^ 64 + 1))
      × (AllStopped u ⊎ ((t : Search) × Turn hash target start max_nonces workers u t))
unfolding start_search
Turns-end hash target start max_nonces workers u run p =
    let whole =
      Turns-left hash target start max_nonces workers (start_search start workers) u run p in
    let most = total-le turns_left (2 ^ 64 + 1) (start_workers start workers 0) turns_left-le in
    let count : length (start_workers start workers 0) * (2 ^ 64 + 1) ≡ workers * (2 ^ 64 + 1) =
      ap (λ (n : ℕ). n * (2 ^ 64 + 1)) (length-start_workers start workers 0) in
    (omega (arith, whole, most, count), AllStopped-or-Turn hash target start max_nonces workers u)
