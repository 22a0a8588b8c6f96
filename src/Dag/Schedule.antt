-- ===== src/Dag/Schedule.antt =====
-- The goroutines of generateColossusXV2DAG as a step relation: a state is the range each worker has
-- still to write, with the buffer, and a step is one write of one worker.
use colossus_x.Prelude.{
  ℕ, suc, ◌<◌, ◌≤◌, ◌^◌, ◌≡◌, ◌≢◌, ◌⊎◌, inl, inr, sym, ap, ◌∙◌, subst, some, List, arith, length,
  get_elem?, set, Bool-cases, ◌==◌, get_elem?-set_self, get_elem?-set_ne, length-set, get_elem?-lt,
}
use colossus_x.Bytes.{Bytes}
use colossus_x.Dag.{ranges}
use colossus_x.Dag.Ranges.{ranges-cover}

-- the workers' ranges and the nodes of the buffer
abbrev pub Workers : Type 0
Workers = List (ℕ × ℕ) × List Bytes

module _ (node : ℕ → Bytes) where
  -- worker k writes the first node of its range
  pub data Step : Workers → Workers → Type 0 where
    write :
        (ws : List (ℕ × ℕ)) (m : List Bytes) (k i t : ℕ)
        → get_elem? ws k ≡ some (i, t)
        → i < t
        → Step (ws, m) (set ws k (suc i, t), set m i (node i))

  pub data Steps : Workers → Workers → Type 0 where
    done : (s : Workers) → Steps s s
    next : (s u v : Workers) → Step s u → Steps u v → Steps s v

  -- node j is written, or a worker will write it
  abbrev Covered : ℕ → Workers → Type 0
  Covered j (ws, m) =
      (get_elem? m j ≡ some (node j))
      ⊎ ((k i t : ℕ) × (get_elem? ws k ≡ some (i, t)) × (i ≤ j) × (j < t))

  kept :
      (j : ℕ) (ws : List (ℕ × ℕ)) (m : List Bytes) (k i t : ℕ)
      → get_elem? ws k ≡ some (i, t)
      → i ≢ j
      → Covered j (ws, m)
      → Covered j (set ws k (suc i, t), set m i (node i))
  kept j ws m k i t at apart (inl d) = inl (get_elem?-set_ne m (node i) apart ∙ d)
  kept j ws m k i t at apart (inr (k', i', t', at', low, high)) = elim (Bool-cases (k == k')) [
    | inl e ↦
        let same : k ≡ k' = ground (arith, e) in
        let range : some (i, t) ≡ some (i', t') = sym at ∙ ap (get_elem? ws) same ∙ at' in
        let start : i ≡ i' = cc in
        let stop : t ≡ t' = cc in
        inr (
          k,
          suc i,
          t,
          get_elem?-set_self ws k (suc i, t) (get_elem?-lt ws k at),
          omega (arith, low, apart, start),
          omega (arith, high, stop),
        )
    | inr e ↦ inr (
      k',
      i',
      t',
      get_elem?-set_ne ws (suc i, t) (λ q. absurd (ground (arith, e, q))) ∙ at',
      low,
      high,
    )
  ]

  Step-Covered :
      (j : ℕ) (s u : Workers)
      → Step s u
      → j < length s.1
      → Covered j s
      → (j < length u.1) × Covered j u
  Step-Covered j _ _ (write ws m k i t at p) l c =
      let long : j < length (set m i (node i)) = omega (arith, length-set m i (node i), l) in
      elim (Bool-cases (i == j)) [
        | inl e ↦
            let same : i ≡ j = ground (arith, e) in
            (
              long,
              inl (
                  subst (λ (x : ℕ). get_elem? (set m x (node x)) j ≡ some (node j)) (sym same)
                    (get_elem?-set_self m j (node j) l)),
            )
        | inr e ↦ let apart : i ≢ j = ground (arith, e) in (long, kept j ws m k i t at apart c)
      ]

  Steps-Covered : (j : ℕ) (s u : Workers) → Steps s u → j < length s.1 → Covered j s → Covered j u
  Steps-Covered j _ _ (done s) l c = c
  Steps-Covered j _ _ (next s u v a r) l c =
      let (l', c') = Step-Covered j s u a l c in Steps-Covered j u v r l' c'

  -- every worker is at the end of its range
  abbrev pub Finished : Workers → Type 0
  Finished (ws, m) = (k i t : ℕ) → get_elem? ws k ≡ some (i, t) → t ≤ i

  -- However the goroutines of the generation interleave, and for every number of workers, a run
  -- that has finished has written each node with its value.
  pub Steps-ranges-Finished :
      (workers count : ℕ) (m : List Bytes) (u : Workers)
      → count < 2 ^ 64
      → 0 < workers
      → count ≤ length m
      → Steps (ranges workers count, m) u
      → Finished u
      → (j : ℕ) → j < count
      → get_elem? u.1 j ≡ some (node j)
  Steps-ranges-Finished workers count m u b p l run f j h =
      elim (Steps-Covered j (ranges workers count, m) u run (omega (arith, l, h))
        (inr (ranges-cover workers count j b p h))) [
          | inl d ↦ d
          | inr (k, i, t, at, low, high) ↦ absurd (omega (arith, f k i t at, low, high))
        ]
