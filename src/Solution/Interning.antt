-- ===== src/Solution/Interning.antt =====
-- The pool of CompactColossusXSolution: the reference that encodeCell writes for a sibling stands
-- for it in the pool from then on.
use colossus_x.Prelude.{
  ℕ, suc, zero, ◌+◌, ◌%◌, ◌^◌, ◌≤◌, ◌<◌, ◌≡◌, refl, List, [], ◌∷◌, ◌++◌, arith, length,
  length-append, get_elem?, ok, some, Option-cases, inl, inr, traverse,
}
use colossus_x.Bytes.{Bytes, bytes_eq_iff}
use colossus_x.Solution.{Pool, lookup_sibling, intern, intern_all, decode_ref}

-- the map of the pool points at the siblings
abbrev pub Points : Pool → Type 0
Points pool =
    (h : Bytes) (i : ℕ)
    → lookup_sibling h pool.index_by_sibling ≡ some i
    → get_elem? pool.siblings i ≡ some h

-- what a pool holds, a later pool holds at the same places
abbrev pub Grows : Pool → Pool → Type 0
Grows p q = (i : ℕ) (h : Bytes) → get_elem? p.siblings i ≡ some h → get_elem? q.siblings i ≡ some h

get_elem?-append :
    (l m : List Bytes) (i : ℕ) (h : Bytes) → get_elem? l i ≡ some h → get_elem? (l ++ m) i ≡ some h
get_elem?-append [] m i h e = absurd (cc)
get_elem?-append (x ∷ l) m zero h e = e
get_elem?-append (x ∷ l) m (suc i) h e = get_elem?-append l m i h e

get_elem?-last : (l : List Bytes) (h : Bytes) → get_elem? (l ++ h ∷ []) (length l) ≡ some h
get_elem?-last [] h = refl
get_elem?-last (x ∷ l) h = get_elem?-last l h

record Interned (pool : Pool) (sib : Bytes) (r : ℕ × Pool) : Type 0 where
  points : Points r.1
  grows : Grows pool r.1
  found : get_elem? r.1.siblings r.0 ≡ some sib
  bounded : length r.1.siblings ≤ length pool.siblings + 1

-- a new sibling at the end of the pool
extend : Pool → Bytes → Pool
extend pool sib = record {
  siblings = pool.siblings ++ sib ∷ [];
  index_by_sibling = (sib, length pool.siblings) ∷ pool.index_by_sibling;
}

extend-Points : (pool : Pool) (sib : Bytes) → Points pool → Points (extend pool sib)
unfolding extend lookup_sibling
extend-Points pool sib p h i e = ground (
  arith,
  bytes_eq_iff sib h,
  get_elem?-last pool.siblings sib,
  p h i,
  get_elem?-append pool.siblings (sib ∷ []) i h,
)

extend-Interned :
    (pool : Pool) (sib : Bytes)
    → Points pool
    → Interned pool sib (length pool.siblings, extend pool sib)
unfolding extend
extend-Interned pool sib p = record {
  points = extend-Points pool sib p;
  grows = λ i h at. get_elem?-append pool.siblings (sib ∷ []) i h at;
  found = get_elem?-last pool.siblings sib;
  bounded = omega (arith, length-append pool.siblings (sib ∷ []));
}

intern-Interned :
    (pool : Pool) (sib : Bytes)
    → Points pool
    → length pool.siblings < 2 ^ 32
    → Interned pool sib (intern pool sib)
unfolding intern extend
intern-Interned pool sib p small = elim (Option-cases (lookup_sibling sib pool.index_by_sibling)) [
  | inr (i, e) ↦
      rw (e, intern)
        (record { points = p; grows = λ j h at. at; found = p sib i e; bounded = omega arith })
  | inl e ↦
      let fits : length pool.siblings % 2 ^ 32 ≡ length pool.siblings = omega arith in
      rw (e, intern, fits) (extend-Interned pool sib p)
]

-- the references of a proof decode to the proof, now and in every later pool
pub record Encoded (pool : Pool) (proof : List Bytes) (r : List ℕ × Pool) : Type 0 where
  pub points : Points r.1
  pub grows : Grows pool r.1
  pub decoded :
      (later : Pool) → Grows r.1 later → traverse (decode_ref later.siblings) r.0 ≡ ok proof
  pub bounded : length r.1.siblings ≤ length pool.siblings + length proof

decode_found :
    (siblings : List Bytes) (i : ℕ) (h : Bytes)
    → get_elem? siblings i ≡ some h
    → decode_ref siblings i ≡ ok h
unfolding decode_ref
decode_found siblings i h e = rw (e, decode_ref)

pub intern_all-Encoded :
    (pool : Pool) (proof : List Bytes)
    → Points pool
    → length pool.siblings + length proof < 2 ^ 32
    → Encoded pool proof (intern_all pool proof)
unfolding intern_all
intern_all-Encoded pool [] p small = record {
  points = p;
  grows = λ i h at. at;
  decoded = λ later g. refl;
  bounded = omega arith;
}
intern_all-Encoded pool (sib ∷ r) p small =
    let one = intern-Interned pool sib p (omega arith) in
    let pool' = (intern pool sib).1 in
    let more = intern_all-Encoded pool' r one.points (omega (arith, one.bounded)) in
    record {
      points = more.points;
      grows = λ i h at. more.grows i h (one.grows i h at);
      decoded = λ later g. rw (
        decode_found later.siblings (intern pool sib).0 sib
            (g (intern pool sib).0 sib (more.grows (intern pool sib).0 sib one.found)),
        more.decoded later g,
      );
      bounded = omega (arith, one.bounded, more.bounded);
    }
