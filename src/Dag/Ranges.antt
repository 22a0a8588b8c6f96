-- ===== src/Dag/Ranges.antt =====
-- The ranges of the workers of generateColossusXV2DAG and generateDAG.
use native.Mathlib.Nat.{add-mul, mul-div-le, mul-le-mul_right}
use colossus_x.Prelude.{
  ℕ, zero, suc, ◌+◌, ◌*◌, ◌/◌, ◌%◌, ◌^◌, ◌<◌, ◌≤◌, ◌≡◌, refl, ◌⊎◌, inl, inr, some, ◌∷◌, arith,
  get_elem?, ltb, ◌==◌, Bool-cases,
}
use colossus_x.Dag.{chunk_of, worker_range, ranges_from, ranges}

chunk_of-room : (k n w : ℕ) → w < k → w * chunk_of k n < n → w * chunk_of k n + chunk_of k n ≤ n
unfolding chunk_of
chunk_of-room k n w p h = elim (Bool-cases (n / k == 0)) [
  | inl e ↦ ground (arith, e)
  | inr e ↦
      let scaled : suc w * (n / k) ≤ k * (n / k) = mul-le-mul_right (n / k) p in
      let below = mul-div-le n k in ground (arith, e, scaled, below)
]

-- The range of worker w, which is its own when it starts below the count
pub worker_range_lem :
    (k n w : ℕ)
    → n < 2 ^ 64
    → w < k
    → w * chunk_of k n < n
    → (t : ℕ) × (worker_range k n w ≡ some (w * chunk_of k n, t))
      × (t ≤ n)
      × (((t ≡ n) × (w + 1 ≡ k)) ⊎ ((t ≡ w * chunk_of k n + chunk_of k n) × (w + 1 < k)))
unfolding worker_range
worker_range_lem k n w b p h =
    let room = chunk_of-room k n w p h in
    let here : w * chunk_of k n % 2 ^ 64 ≡ w * chunk_of k n = omega (arith, h) in
    let next : (w * chunk_of k n + chunk_of k n) % 2 ^ 64 ≡ w * chunk_of k n + chunk_of k n =
      omega (arith, room) in
    elim (Bool-cases (w + 1 == k)) [
      | inl e ↦
          (n, rw (here, next, e) ground (arith, h), omega arith, inl (refl, ground (arith, e)))
      | inr e ↦ (
        w * chunk_of k n + chunk_of k n,
        rw (here, next, e) ground (arith, h, room),
        room,
        inr (refl, ground (arith, e)),
      )
    ]

pub ranges_from-suc :
    (k n m w : ℕ) (r : ℕ × ℕ)
    → worker_range k n w ≡ some r
    → ranges_from k n (suc m) w ≡ r ∷ ranges_from k n m (w + 1)
unfolding ranges_from
ranges_from-suc k n m w r e = rw (e, ranges_from) refl

after : (w c j : ℕ) → w * c + c ≤ j → (w + 1) * c ≤ j
after w c j h = omega (arith, h, add-mul w 1 c)

-- a node that worker w or a later one has to write is in a range
cover_from :
    (k n m w j : ℕ)
    → n < 2 ^ 64
    → m + w ≡ k
    → w < k
    → w * chunk_of k n ≤ j
    → j < n
    → (i f t : ℕ) × (get_elem? (ranges_from k n m w) i ≡ some (f, t)) × (f ≤ j) × (j < t)
cover_from k n zero w j b e p h l = absurd (omega arith)
cover_from k n (suc m) w j b e p h l =
    let (t, is, top, ends) = worker_range_lem k n w b p (omega (arith, h, l)) in
    let unrolled = ranges_from-suc k n m w (w * chunk_of k n, t) is in
    elim (Bool-cases (ltb j t)) [
      | inl s ↦ (0, w * chunk_of k n, t, rw unrolled refl, h, ground (arith, s))
      | inr s ↦ elim ends [
        | inl last ↦ absurd (ground (arith, s, last.0))
        | inr (next, more) ↦
            let (i, f, u, at, low, high) =
              cover_from k n m (w + 1) j b (omega arith) more
                (after w (chunk_of k n) j (ground (arith, s, next))) l in
            (suc i, f, u, rw unrolled at, low, high)
      ]
    ]

-- Every node is in the range of a worker.
pub ranges-cover :
    (k n j : ℕ)
    → n < 2 ^ 64
    → 0 < k
    → j < n
    → (i f t : ℕ) × (get_elem? (ranges k n) i ≡ some (f, t)) × (f ≤ j) × (j < t)
unfolding ranges
ranges-cover k n j b p l = cover_from k n k 0 j b (omega arith) p (omega arith) l
