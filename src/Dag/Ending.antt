-- ===== src/Dag/Ending.antt =====
-- The goroutines of the DAG generation come to an end.
use native.Mathlib.Nat.{add-mul}
use colossus_x.Prelude.{
  ℕ, zero, suc, ◌+◌, ◌-◌, ◌*◌, ◌%◌, ◌^◌, ◌<◌, ◌≤◌, ◌≡◌, ◌⊎◌, inl, inr, refl, ap, ◌∙◌, Bool-cases,
  some, List, [], ◌∷◌, arith, length, get_elem?, ltb,
}
use colossus_x.Prelude.Sums.{total, total-set, total-zero}
use colossus_x.Bytes.{Bytes}
use colossus_x.Dag.{chunk_of, worker_range, ranges_from, ranges}
use colossus_x.Dag.Ranges.{worker_range_lem, ranges_from-suc}
use colossus_x.Dag.Schedule.{
  Workers, Step, Steps, write, done, next, Finished, Steps-ranges-Finished,
}

-- the nodes that a worker has still to write
abbrev pub width : ℕ × ℕ → ℕ
width (i, t) = t - i

-- past the last node there is no range
ranges_from_past : (k n m w : ℕ) → n < 2 ^ 64 → w * chunk_of k n ≡ n → ranges_from k n m w ≡ []
unfolding ranges_from worker_range
ranges_from_past k n zero w b e = refl
ranges_from_past k n (suc m) w b e =
    let at : w * chunk_of k n % 2 ^ 64 ≡ n = omega (arith, b, e) in ground (arith, at)

total_cons : (r : ℕ × ℕ) (rs : List (ℕ × ℕ)) → total width (r ∷ rs) ≡ width r + total width rs
unfolding total
total_cons r rs = refl

total_nil : (rs : List (ℕ × ℕ)) → rs ≡ [] → total width rs ≡ 0
unfolding total
total_nil rs e = ap (total width) e

-- the range of a worker that starts below the count, and those of the workers after it
total_step :
    (k n m w : ℕ)
    → n < 2 ^ 64
    → suc m + w ≡ k
    → w * chunk_of k n < n
    → (t : ℕ) × (total width (ranges_from k n (suc m) w)
        ≡ (t - w * chunk_of k n) + total width (ranges_from k n m (w + 1)))
      × (t ≤ n)
      × (((t ≡ n) × (m ≡ 0)) ⊎ ((t ≡ w * chunk_of k n + chunk_of k n) × (0 < m)))
total_step k n m w b e below =
    let (t, is, top, ends) = worker_range_lem k n w b (omega (arith, e)) below in
    (
      t,
      ap (total width) (ranges_from-suc k n m w (w * chunk_of k n, t) is)
          ∙ total_cons (w * chunk_of k n, t) (ranges_from k n m (w + 1)),
      top,
      elim ends [
        | inl (all, last) ↦ inl (all, omega (arith, e, last))
        | inr (part, more) ↦ inr (part, omega (arith, e, more))
      ],
    )

-- the same, once it is known for the workers after it
total_below :
    (k n m w : ℕ)
    → n < 2 ^ 64
    → suc m + w ≡ k
    → w * chunk_of k n ≤ n
    → (0 < m
        → (w + 1) * chunk_of k n ≤ n
        → total width (ranges_from k n m (w + 1)) + (w + 1) * chunk_of k n ≡ n)
    → total width (ranges_from k n (suc m) w) + w * chunk_of k n ≡ n
unfolding ranges_from
total_below k n m w b e p rest = elim (Bool-cases (ltb (w * chunk_of k n) n)) [
  | inr past ↦
      let at : w * chunk_of k n ≡ n = ground (arith, past, p) in
      omega (arith, at, total_nil _ (ranges_from_past k n (suc m) w b at))
  | inl below ↦
      let (t, sum, top, ends) = total_step k n m w b e (ground (arith, below)) in
      let next = add-mul w 1 (chunk_of k n) in
      elim ends [
        | inl (all, last) ↦
            let nothing = total_nil _ (ap (λ (i : ℕ). ranges_from k n i (w + 1)) last) in
            omega (arith, sum, all, p, nothing)
        | inr (part, more) ↦
            omega (arith, next, sum, part, rest more (omega (arith, next, part, top)))
      ]
]

-- the widths of the ranges from worker w sum up to the nodes from its first
total-ranges_from :
    (k n m w : ℕ)
    → n < 2 ^ 64
    → suc m + w ≡ k
    → w * chunk_of k n ≤ n
    → total width (ranges_from k n (suc m) w) + w * chunk_of k n ≡ n
total-ranges_from k n zero w b e p =
    total_below k n zero w b e p (λ more h. absurd (omega (arith, more)))
total-ranges_from k n (suc m) w b e p =
    total_below k n (suc m) w b e p
      (λ more h. total-ranges_from k n m (w + 1) b (omega (arith, e)) h)

total-ranges :
    (workers count : ℕ) → count < 2 ^ 64 → 0 < workers → total width (ranges workers count) ≡ count
unfolding ranges
total-ranges zero count b p = absurd (omega (arith, p))
total-ranges (suc m) count b p =
    omega (arith, total-ranges_from (suc m) count m 0 b (omega arith) (omega arith))

-- a worker that is not at the end of its range, if there is one
writing :
    (ws : List (ℕ × ℕ))
    → ((k i t : ℕ) → get_elem? ws k ≡ some (i, t) → t ≤ i)
      ⊎ ((k i t : ℕ) × (get_elem? ws k ≡ some (i, t)) × (i < t))
writing [] = inl (λ k i t e. absurd cc)
writing ((i, t) ∷ ws) = elim (Bool-cases (ltb i t)) [
  | inl left ↦ inr (0, i, t, refl, ground (arith, left))
  | inr at_end ↦ elim (writing ws) [
    | inr (k, j, u, e, q) ↦ inr (suc k, j, u, e, q)
    | inl ended ↦ inl (all_ended ended (ground (arith, at_end)))
  ]
]
  where
    all_ended :
        ((k j u : ℕ) → get_elem? ws k ≡ some (j, u) → u ≤ j)
        → t ≤ i
        → (k j u : ℕ) → get_elem? ((i, t) ∷ ws) k ≡ some (j, u)
        → u ≤ j
    all_ended ended q zero j u e =
        let first : i ≡ j = cc in let second : t ≡ u = cc in omega (arith, q, first, second)
    all_ended ended q (suc k) j u e = ended k j u e

module _ (node : ℕ → Bytes) where
  -- the writes of a run
  abbrev pub write_count : (s u : Workers) → Steps node s u → ℕ
  write_count _ _ (done s) = 0
  write_count _ _ (next s u v a r) = suc (write_count u v r)

  Step-width : (s u : Workers) → Step node s u → total width u.0 + 1 ≡ total width s.0
  Step-width _ _ (write ws m k i t at below) =
      omega (arith, total-set width ws k (i, t) (suc i, t) at, below)

  Steps-width :
      (s u : Workers) (run : Steps node s u)
      → total width u.0 + write_count s u run ≡ total width s.0
  Steps-width _ _ (done s) = omega arith
  Steps-width _ _ (next s u v a r) = omega (arith, Step-width s u a, Steps-width u v r)

  -- The generation of the DAG ends with the whole DAG written, with any number of workers and
  -- whatever their order: a run makes as many writes as there are nodes at most, another write is
  -- possible as long as a worker has not come to the end of its range, and a run that has finished
  -- has made as many writes as there are nodes and left every node in the buffer with its value,
  -- when the buffer has room for the nodes.
  pub Steps-end :
      (workers count : ℕ) (m : List Bytes) (u : Workers)
      (run : Steps node (ranges workers count, m) u)
      → count < 2 ^ 64
      → 0 < workers
      → count ≤ length m
      → (write_count (ranges workers count, m) u run ≤ count)
        × (Finished node u ⊎ ((v : Workers) × Step node u v))
        × (Finished node u
            → (write_count (ranges workers count, m) u run ≡ count)
              × ((j : ℕ) → j < count → get_elem? u.1 j ≡ some (node j)))
  Steps-end workers count m (ws, nodes) run b p l =
      let start = total-ranges workers count b p in
      let measured = Steps-width (ranges workers count, m) (ws, nodes) run in
      (
        omega (arith, start, measured),
        elim (writing ws) [
          | inl ended ↦ inl ended
          | inr (k, i, t, at, below) ↦ inr (_, write ws nodes k i t at below)
        ],
        λ finished.
            let nothing = total-zero width ws (λ k r e. omega (arith, finished k r.0 r.1 e)) in
            (
              omega (arith, start, measured, nothing),
              λ j h. Steps-ranges-Finished node workers count m (ws, nodes) b p l run finished j h,
            ),
      )
