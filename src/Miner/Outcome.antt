-- ===== src/Miner/Outcome.antt =====
-- What the goroutines of Mine find, however they interleave.
use native.Mathlib.Nat.{div-add-mod, mul_comm}
use colossus_x.Prelude.{
  ℕ, zero, suc, ◌+◌, ◌-◌, ◌*◌, ◌/◌, ◌%◌, ◌^◌, ◌<◌, ◌≤◌, ◌≡◌, ◌≢◌, ◌⊎◌, inl, inr, refl, sym, ap, ◌∙◌,
  subst, true, false, Bool-cases, Option, none, some, List, arith, length, get_elem?, set, ◌==◌,
  get_elem?-set_self, get_elem?-set_ne, get_elem?-lt,
}
use colossus_x.Bytes.{Bytes}
use colossus_x.Nonce.{add_uint64, add_uint64_lem}
use colossus_x.Target.{less_or_equal_be}
use colossus_x.Hash.{HashResult}
use colossus_x.Miner.{
  Search, start_workers, start_search, exhausted, first_hit, Turn, Turns, quit_found,
  quit_exhausted, hit, miss, done, next,
}

get_elem?-start_workers :
    (start n id k : ℕ)
    → k < n
    → get_elem? (start_workers start n id) k ≡ some (add_uint64 start (id + k))
unfolding start_workers
get_elem?-start_workers start zero id k h = absurd (omega arith)
get_elem?-start_workers start (suc n) id zero h = ap (λ t. some (add_uint64 start t)) (omega arith)
get_elem?-start_workers start (suc n) id (suc k) h =
    get_elem?-start_workers start n (id + 1) k (omega arith)
    ∙ ap (λ t. some (add_uint64 start t)) (omega arith)

add_uint64_fits : (n d : ℕ) → n + d < 2 ^ 64 → add_uint64 n d ≡ some (n + d)
add_uint64_fits n d h = add_uint64_lem n d (omega arith) ∙ ground (arith, h)

some-injective {ℓ} : {A : Type ℓ} {x y : A} → some x ≡ some y → x ≡ y
some-injective e = cc

start_workers-sane :
    (start n id k m : ℕ)
    → start < 2 ^ 64
    → get_elem? (start_workers start n id) k ≡ some (some m)
    → (start ≤ m) × (m < 2 ^ 64)
unfolding start_workers add_uint64
start_workers-sane start zero id k m h e = absurd cc
start_workers-sane start (suc n) id zero m h e = ground (arith, h, e)
start_workers-sane start (suc n) id (suc k) m h e = start_workers-sane start n (id + 1) k m h e

module _ (hash : ℕ → HashResult) (target : Bytes) (start max_nonces step : ℕ) where
  -- a nonce that the search has to try
  abbrev pub InSearch : ℕ → Type 0
  InSearch n = (start ≤ n) × (n < 2 ^ 64) × ((max_nonces ≡ 0) ⊎ (n < start + max_nonces))

  abbrev pub Misses : ℕ → Type 0
  Misses n = less_or_equal_be (hash n).pow256 target ≡ false

  -- nonce n has been tried, or a worker is on its way to it
  abbrev Pending : ℕ → List (Option ℕ) → Type 0
  Pending n ws = Misses n ⊎ ((k m j : ℕ) × (get_elem? ws k ≡ some (some m)) × (n ≡ m + j * step))

  abbrev Known : ℕ → Search → Type 0
  Known n s = ((h : ℕ × HashResult) × (s.found ≡ some h)) ⊎ Pending n s.workers

  replaced :
      (n k m : ℕ) (ws : List (Option ℕ)) (w : Option ℕ)
      → get_elem? ws k ≡ some (some m)
      → ((j : ℕ) → n ≡ m + j * step → Pending n (set ws k w))
      → Pending n ws
      → Pending n (set ws k w)
  replaced n k m ws w at own (inl missed) = inl missed
  replaced n k m ws w at own (inr (k', m', j, at', e)) = elim (Bool-cases (k == k')) [
    | inl same ↦
        let index : k ≡ k' = ground (arith, same) in
        let entry : some (some m) ≡ some (some m') = sym at ∙ ap (get_elem? ws) index ∙ at' in
        let nonce : m ≡ m' = cc in own j (omega (arith, e, nonce))
    | inr other ↦
        let apart : k ≢ k' = ground (arith, other) in
        inr (k', m', j, get_elem?-set_ne ws w apart ∙ at', e)
  ]

  first_hit-some :
      (o : Option (ℕ × HashResult)) (h : ℕ × HashResult)
      → (x : ℕ × HashResult) × (first_hit o h ≡ some x)
  first_hit-some none h = (h, refl)
  first_hit-some (some x) h = (x, refl)

  exhausted-past :
      (m : ℕ) → exhausted start max_nonces m ≡ true → (0 < max_nonces) × (start + max_nonces ≤ m)
  exhausted-past m e = ground (arith, e)

  Turn-Known :
      (n : ℕ) (s t : Search)
      → InSearch n
      → Turn hash target start max_nonces step s t
      → Known n s
      → Known n t
  Turn-Known n _ _ range (quit_found s k m h at f) known = inl (h, f)
  Turn-Known n _ _ range (hit s k m at left meets) known = inl (first_hit-some s.found (m, hash m))
  Turn-Known n _ _ range (quit_exhausted s k m at e) (inl f) = inl f
  Turn-Known n _ _ range (quit_exhausted s k m at e) (inr p) =
      let past = exhausted-past m e in
      inr (replaced n k m s.workers none at (λ j q. absurd (omega (arith, past, q, range))) p)
  Turn-Known n _ _ range (miss s k m at left missed) (inl f) = inl f
  Turn-Known n _ _ range (miss s k m at left missed) (inr p) =
      inr (replaced n k m s.workers (add_uint64 m step) at own p)
    where
      own : (j : ℕ) → n ≡ m + j * step → Pending n (set s.workers k (add_uint64 m step))
      own zero q = inl (subst (λ (i : ℕ). Misses i) (omega (arith, q)) missed)
      own (suc j) q =
          let product : suc j * step ≡ step + j * step = grind arith in
          let moved = add_uint64_fits m step (omega (arith, q, product, range.1)) in
          inr (
            k,
            m + step,
            j,
            get_elem?-set_self s.workers k (add_uint64 m step) (get_elem?-lt s.workers k at)
                ∙ ap some moved,
            omega (arith, q, product),
          )

  Turns-Known :
      (n : ℕ) (s t : Search)
      → InSearch n
      → Turns hash target start max_nonces step s t
      → Known n s
      → Known n t
  Turns-Known n _ _ range (done s) known = known
  Turns-Known n _ _ range (next s t u a r) known =
      Turns-Known n t u range r (Turn-Known n s t range a known)

  start-Known : (n : ℕ) → 0 < step → InSearch n → Known n (start_search start step)
  unfolding start_search
  start-Known n p range =
      let split = div-add-mod (n - start) step in
      let below : (n - start) % step < step = omega (arith, p) in
      inr (
        inr (
          (n - start) % step,
          start + (n - start) % step,
          (n - start) / step,
          get_elem?-start_workers start step 0 ((n - start) % step) below
              ∙ ap some (
                  add_uint64_fits start (0 + (n - start) % step)
                    (omega (arith, split, range.0, range.1)))
              ∙ ap (λ (i : ℕ). some (some (start + i))) (omega arith),
          omega (arith, split, range.0, mul_comm step ((n - start) / step)),
        ))

-- every goroutine has returned
abbrev pub AllStopped : Search → Type 0
AllStopped s = (k m : ℕ) → get_elem? s.workers k ≡ some (some m) → ⊥

-- Mine misses no nonce: once every goroutine has returned with nothing found, however they
-- interleaved and for every number of workers, no nonce from the start up to the limit of the
-- search, or up to 2^64 without a limit, has a hash that meets the target.
pub Turns-AllStopped :
    (hash : ℕ → HashResult) (target : Bytes) (start max_nonces workers : ℕ) (u : Search)
    → 0 < workers
    → Turns hash target start max_nonces workers (start_search start workers) u
    → AllStopped u
    → u.found ≡ none
    → (n : ℕ) → InSearch hash target start max_nonces workers n
    → less_or_equal_be (hash n).pow256 target ≡ false
Turns-AllStopped hash target start max_nonces workers u p run stopped nothing n range =
    elim (Turns-Known hash target start max_nonces workers n (start_search start workers) u range
      run (start-Known hash target start max_nonces workers n p range)) [
        | inl (h, f) ↦ absurd cc
        | inr (inl missed) ↦ missed
        | inr (inr (k, m, j, at, e)) ↦ absurd (stopped k m at)
      ]

module _ (hash : ℕ → HashResult) (target : Bytes) (start max_nonces step : ℕ) where
  -- a nonce of the search with its hash, which meets the target
  abbrev pub IsHit : ℕ × HashResult → Type 0
  IsHit (n, h) =
      (h ≡ hash n)
      × (less_or_equal_be h.pow256 target ≡ true)
      × (start ≤ n)
      × (n < 2 ^ 64)
      × (exhausted start max_nonces n ≡ false)

  -- the goroutines are at words past the start, and what is found is a hit
  abbrev Sane : Search → Type 0
  Sane s =
      ((k m : ℕ) → get_elem? s.workers k ≡ some (some m) → (start ≤ m) × (m < 2 ^ 64))
      × ((h : ℕ × HashResult) → s.found ≡ some h → IsHit h)

  moved_sane :
      (ws : List (Option ℕ)) (k : ℕ) (w : Option ℕ)
      → k < length ws
      → ((m : ℕ) → w ≡ some m → (start ≤ m) × (m < 2 ^ 64))
      → ((k m : ℕ) → get_elem? ws k ≡ some (some m) → (start ≤ m) × (m < 2 ^ 64))
      → (i m : ℕ) → get_elem? (set ws k w) i ≡ some (some m)
      → (start ≤ m) × (m < 2 ^ 64)
  moved_sane ws k w long new old i m e = elim (Bool-cases (k == i)) [
    | inl same ↦
        let index : k ≡ i = ground (arith, same) in
        let now : some w ≡ some (some m) =
          sym (get_elem?-set_self ws k w long) ∙ ap (get_elem? (set ws k w)) index ∙ e in
        new m cc
    | inr other ↦
        let apart : k ≢ i = ground (arith, other) in old i m (sym (get_elem?-set_ne ws w apart) ∙ e)
  ]

  none_sane : (m : ℕ) → none ≡ some m → (start ≤ m) × (m < 2 ^ 64)
  none_sane m e = absurd cc

  IsHit-sane :
      (o : Option (ℕ × HashResult)) (x : ℕ × HashResult)
      → IsHit x
      → ((h : ℕ × HashResult) → o ≡ some h → IsHit h)
      → (h : ℕ × HashResult) → first_hit o x ≡ some h
      → IsHit h
  IsHit-sane none x good old h e = subst (λ (y : ℕ × HashResult). IsHit y) (some-injective e) good
  IsHit-sane (some y) x good old h e = old h e

  added_sane :
      (m : ℕ)
      → start ≤ m
      → m < 2 ^ 64
      → (n : ℕ) → add_uint64 m step ≡ some n
      → (start ≤ n) × (n < 2 ^ 64)
  unfolding add_uint64
  added_sane m low high n e = ground (arith, low, high, e)

  Turn-Sane : (s t : Search) → Turn hash target start max_nonces step s t → Sane s → Sane t
  Turn-Sane _ _ (quit_found s k m h at f) (ws, fs) =
      (moved_sane s.workers k none (get_elem?-lt s.workers k at) none_sane ws, fs)
  Turn-Sane _ _ (quit_exhausted s k m at e) (ws, fs) =
      (moved_sane s.workers k none (get_elem?-lt s.workers k at) none_sane ws, fs)
  Turn-Sane _ _ (hit s k m at left meets) (ws, fs) =
      let (low, high) = ws k m at in
      (
        moved_sane s.workers k none (get_elem?-lt s.workers k at) none_sane ws,
        IsHit-sane s.found (m, hash m) (refl, meets, low, high, left) fs,
      )
  Turn-Sane _ _ (miss s k m at left missed) (ws, fs) =
      let (low, high) = ws k m at in
      (
        moved_sane s.workers k (add_uint64 m step) (get_elem?-lt s.workers k at)
            (added_sane m low high) ws,
        fs,
      )

  Turns-Sane : (s t : Search) → Turns hash target start max_nonces step s t → Sane s → Sane t
  Turns-Sane _ _ (done s) good = good
  Turns-Sane _ _ (next s t u a r) good = Turns-Sane t u r (Turn-Sane s t a good)

-- What Mine reports is right: whatever nonce a run of the goroutines from a start below 2^64 has
-- found carries its own hash, which meets the target, and is a word from the start up to the
-- limit of the search.
pub Turns-IsHit :
    (hash : ℕ → HashResult) (target : Bytes) (start max_nonces workers : ℕ) (u : Search)
    (h : ℕ × HashResult)
    → start < 2 ^ 64
    → Turns hash target start max_nonces workers (start_search start workers) u
    → u.found ≡ some h
    → IsHit hash target start max_nonces workers h
unfolding start_search
Turns-IsHit hash target start max_nonces workers u h word run found =
    (Turns-Sane hash target start max_nonces workers (start_search start workers) u run
        (λ k m e. start_workers-sane start workers 0 k m word e, λ x e. absurd cc)).1
      h found
