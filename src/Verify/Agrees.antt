-- ===== src/Verify/Agrees.antt =====
-- The verify command decides what the validator decides, except in the grace window.
use text.Mathlib.Text.{◌==◌ as str_eq}
use colossus_x.Prelude.{
  ℕ, ◌≡◌, ◌≢◌, ◌↔◌, inl, inr, refl, sym, ◌∙◌, Bool, true, false, not, Option, some, none, leb, ◌==◌,
  ==_iff, Bool-cases, Result, ok, err, panic, ◌>>=◌, ◌>>◌, >>=-eq-ok, require, require-eq-ok, Error,
  size_mismatch, version_mismatch, invalid_pow, missing_solution, seed_mismatch, ok-injective, ap,
}
use colossus_x.Bytes.{bytes_eq, bytes_eq_iff, bytes_eq_self, zero_hash}
use colossus_x.Crypto.{Crypto}
use colossus_x.Spec.{
  Spec, InRange, dag_size_for_height, resolved_for_height, colossus_x_spec_with_growth,
  mode_colossus_x,
}
use colossus_x.Spec.Validate.{IsValid, validate_iff}
use colossus_x.Spec.Size.{dag_size_for_height_lem, ideal_size, epoch_of}
use colossus_x.Types.{Block, BlockHeader, epoch_seed_for_height, encode_for_mining}
use colossus_x.Hash.{DagAccessor}
use colossus_x.Dag.{new_dag_with_allocator, generate_dag}
use colossus_x.Solution.{Solution, CompactSolution, verify_solution, expand_solution}
use colossus_x.Consensus.Header.{
  Validator, wrap, dag_for_header, merkle_root_for_dag, validate_dag_merkle_root, block_solution,
  colossus_x_pow, validate_pow,
}
use colossus_x.Consensus.Header.Rules.{HasEpoch}
use colossus_x.Verify.{
  spec_from_header, given_solution, verify_solved, verify_resolved, verify_with, verify_input,
}

-- an outcome that is wrapped on failure is a success where it was one
wrap_iff {ℓ} : {A : Type ℓ} (r : Result A) (e : Error) (a : A) → (wrap r e ≡ ok a) ↔ (r ≡ ok a)
wrap_iff (ok b) e a = (λ h. h, λ h. h)
wrap_iff (err x) e a = (λ h. absurd cc, λ h. absurd cc)
wrap_iff panic e a = (λ h. absurd cc, λ h. absurd cc)

-- the command and the validator read one solution from a block
solution_iff :
    (c : Crypto) (block : Block) (s : Solution)
    → (block_solution c block ≡ ok s) ↔ (given_solution block ≡ ok s)
unfolding block_solution given_solution
solution_iff c block s = go block.solution block.compact
  where
    go :
        (full : Option Solution) (compact : Option CompactSolution)
        → ((elim full [
          | some s ↦ ok s
          | none ↦ elim compact [
            | some s ↦ wrap (expand_solution s) invalid_pow
            | none ↦ err invalid_pow
          ]
        ])
            ≡ ok s)
          ↔ ((elim full [
            | some s ↦ ok s
            | none ↦ elim compact [ some s ↦ expand_solution s | none ↦ err missing_solution ]
          ])
              ≡ ok s)
    go (some t) compact = (λ h. h, λ h. h)
    go none (some t) = wrap_iff (expand_solution t) invalid_pow s
    go none none = (λ h. absurd cc, λ h. absurd cc)

colossus_x_mode :
    (initial growth : ℕ) → (colossus_x_spec_with_growth initial growth).mode ≡ mode_colossus_x
unfolding colossus_x_spec_with_growth
colossus_x_mode initial growth = elim (Bool-cases (initial == 0)) [
  | inl e ↦ elim (Bool-cases (growth == 0)) [ inl f ↦ rw (e, f) refl | inr f ↦ rw (e, f) refl ]
  | inr e ↦ elim (Bool-cases (growth == 0)) [ inl f ↦ rw (e, f) refl | inr f ↦ rw (e, f) refl ]
]

two_tests :
    (p q : Bool) (own : Spec) (k : Spec → Result (Unit {0}))
    → (((do require p size_mismatch; require q version_mismatch; ok own) >>= k) ≡ ok tt)
      ↔ ((p ≡ true) × (q ≡ true) × (k own ≡ ok tt))
two_tests true true own k = (λ h. (refl, refl, h), λ (_, _, h). h)
two_tests true false own k = (λ h. absurd cc, λ (_, g, _). absurd cc)
two_tests false q own k = (λ h. absurd cc, λ (g, _, _). absurd cc)

-- a test, and what is done when it holds
require_iff {ℓ} :
    {A : Type ℓ} (p : Bool) (e : Error) (r : Result A) {a : A}
    → ((require p e >> r) ≡ ok a) ↔ ((p ≡ true) × (r ≡ ok a))
require_iff true e r = (λ h. (refl, h), λ (_, h). h)
require_iff false e r = (λ h. absurd cc, λ (g, _). absurd cc)

-- specFromHeader asks for the size of the height and for the version of the chain
spec_from_header_iff :
    (initial growth : ℕ) (header : BlockHeader) (k : Spec → Result (Unit {0}))
    → IsValid (colossus_x_spec_with_growth initial growth)
    → InRange (colossus_x_spec_with_growth initial growth)
    → ((spec_from_header mode_colossus_x header initial growth >>= k) ≡ ok tt) ↔ (
        (dag_size_for_height (colossus_x_spec_with_growth initial growth) header.height
          ≡ ok header.dag_size_bytes)
        × (header.algorithm_version
            ≡ (colossus_x_spec_with_growth initial growth).algorithm_version)
        × (k (colossus_x_spec_with_growth initial growth) ≡ ok tt))
unfolding spec_from_header resolved_for_height
spec_from_header_iff initial growth header k valid range =
    let own = colossus_x_spec_with_growth initial growth in
    let size = dag_size_for_height_lem own header.height valid range in
    let good = (validate_iff own).1 valid in
    let ideal = ideal_size own (epoch_of own header.height) in
    let sizes = ==_iff header.dag_size_bytes ideal in
    let versions = ==_iff header.algorithm_version own.algorithm_version in
    let tests =
      two_tests (header.dag_size_bytes == ideal) (header.algorithm_version == own.algorithm_version)
        own k in
    let same : (spec_from_header mode_colossus_x header initial growth >>= k) ≡ (
        (do
          require (header.dag_size_bytes == ideal) size_mismatch
          require (header.algorithm_version == own.algorithm_version) version_mismatch
          ok own)
        >>= k) =
      rw (good, size) refl in
    (
      λ h. let (a, b, d) = tests.0 (sym same ∙ h) in (rw (sizes.0 a) size, versions.0 b, d),
      λ (a, b, d). same ∙ tests.1 (sizes.1 (ok-injective (sym a ∙ size)), versions.1 b, d),
    )

module _ (c : Crypto) where
  verify_with_iff :
      (own : Spec) (header : BlockHeader) (block : Option Block) (size : ℕ)
      → dag_size_for_height own header.height ≡ ok size
      → (verify_with c own header block ≡ ok tt) ↔ (
          (header.epoch_seed ≡ epoch_seed_for_height c own header.height)
          × (verify_resolved c (record own { dag_size_bytes = header.dag_size_bytes }) header block
              ≡ ok tt))
  unfolding verify_with resolved_for_height
  verify_with_iff own header block size e =
      let own_seed = epoch_seed_for_height c own header.height in
      let seeds = bytes_eq_iff own_seed header.epoch_seed in
      let resolved = record own { dag_size_bytes = header.dag_size_bytes } in
      let test =
        require_iff (bytes_eq own_seed header.epoch_seed) seed_mismatch
          (verify_resolved c resolved header block) in
      let same : verify_with c own header block ≡ (
          require (bytes_eq own_seed header.epoch_seed) seed_mismatch
          >> verify_resolved c resolved header block) =
        rw e refl in
      (
        λ h. let (f, rest) = test.0 (sym same ∙ h) in (sym (seeds.0 f), rest),
        λ (f, rest). same ∙ test.1 (seeds.1 (sym f), rest),
      )

  -- a header that carries the root of its DAG
  root_parts :
      (v : Validator) (header : BlockHeader) (size : ℕ)
      → dag_size_for_height v.config.spec header.height ≡ ok size
      → validate_dag_merkle_root c v header ≡ ok tt
      → (dag : DagAccessor) × (dag_for_header c v header
          ≡ ok (record v.config.spec { dag_size_bytes = header.dag_size_bytes }, dag))
        × (merkle_root_for_dag c dag ≡ ok header.dag_merkle_root)
  unfolding validate_dag_merkle_root dag_for_header resolved_for_height
  root_parts v header size sized h =
      let resolved = record v.config.spec { dag_size_bytes = header.dag_size_bytes } in
      let ((spec, dag), made, after) = >>=-eq-ok (dag_for_header c v header) _ h in
      let (root, rooted, test) = >>=-eq-ok (merkle_root_for_dag c dag) _ after in
      let right =
        (bytes_eq_iff root header.dag_merkle_root).0
          (require-eq-ok (bytes_eq root header.dag_merkle_root) invalid_pow test) in
      let same : dag_for_header c v header ≡ (do
        bytes ← new_dag_with_allocator v.alloc resolved
        made ← generate_dag c resolved bytes header.epoch_seed
        ok (resolved, made)) =
        rw sized refl in
      let (bytes, given, built) =
        >>=-eq-ok (new_dag_with_allocator v.alloc resolved) _ (sym same ∙ made) in
      let (dag', generated, pair) =
        >>=-eq-ok (generate_dag c resolved bytes header.epoch_seed) _ built in
      let is : (resolved, dag') ≡ (spec, dag) = ok-injective pair in
      (dag', made ∙ sym pair, ap (λ p. merkle_root_for_dag c p.1) is ∙ rooted ∙ ap ok right)

  -- the test of the solution, by the command and by the validator
  solved_iff :
      (spec : Spec) (dag : DagAccessor) (block : Block)
      → block.header.dag_merkle_root ≢ zero_hash
      → merkle_root_for_dag c dag ≡ ok block.header.dag_merkle_root
      → (verify_solved c spec block.header (some block) ≡ ok tt)
        ↔ (colossus_x_pow c spec dag block ≡ ok tt)
  unfolding verify_solved colossus_x_pow
  solved_iff spec dag block named rooted =
      let header = block.header in
      let check : Solution → Result (Unit {0}) = λ s.
        verify_solution c spec (encode_for_mining header) header.target header.dag_merkle_root s in
      let zero = bytes_eq_iff header.dag_merkle_root zero_hash in
      let test : not (bytes_eq header.dag_merkle_root zero_hash) ≡ true =
        elim (Bool-cases (bytes_eq header.dag_merkle_root zero_hash)) [
          | inl e ↦ absurd (named (zero.0 e))
          | inr e ↦ rw e refl
        ] in
      let command : verify_solved c spec header (some block) ≡ (given_solution block >>= check) =
        rw test refl in
      let pow : colossus_x_pow c spec dag block
          ≡ (block_solution c block >>= λ s. wrap (check s) invalid_pow) =
        rw (rooted, bytes_eq_self header.dag_merkle_root) refl in
      (
        λ h.
            let (s, given, good) = >>=-eq-ok (given_solution block) check (sym command ∙ h) in
            pow
            ∙ (rw ((solution_iff c block s).1 given) ((wrap_iff (check s) invalid_pow tt).1 good)),
        λ h.
            let (s, given, good) =
              >>=-eq-ok (block_solution c block) (λ s. wrap (check s) invalid_pow) (sym pow ∙ h) in
            command
            ∙ (rw ((solution_iff c block s).0 given) ((wrap_iff (check s) invalid_pow tt).0 good)),
      )

  -- a chain of mode colossusx goes by the solution of the block
  resolved_branch :
      (spec : Spec) (header : BlockHeader) (block : Option Block)
      → spec.mode ≡ mode_colossus_x
      → verify_resolved c spec header block ≡ verify_solved c spec header block
  unfolding verify_resolved
  resolved_branch spec header block e =
      let mode : str_eq spec.mode mode_colossus_x ≡ true = rw e refl in
      elim (Bool-cases (leb 2 spec.algorithm_version)) [
        | inl f ↦ rw f refl
        | inr f ↦ rw (f, mode) refl
      ]

  pow_branch :
      (v : Validator) (block : Block) (spec : Spec) (dag : DagAccessor)
      → dag_for_header c v block.header ≡ ok (spec, dag)
      → v.config.spec.mode ≡ mode_colossus_x
      → validate_pow c v block ≡ colossus_x_pow c spec dag block
  unfolding validate_pow
  pow_branch v block spec dag made e =
      let mode : str_eq v.config.spec.mode mode_colossus_x ≡ true = rw e refl in
      elim (Bool-cases (leb 2 block.header.algorithm_version)) [
        | inl f ↦ rw (made, f) refl
        | inr f ↦ rw (made, f, mode) refl
      ]

  -- the validator v, for the chain with these sizes
  abbrev pub on_chain : Validator → ℕ → ℕ → Validator
  on_chain v initial growth = record v {
    config = record v.config { spec = colossus_x_spec_with_growth initial growth };
  }

  -- The verify command, given the sizes of the chain, accepts a block file exactly when the block has
  -- the algorithm version of the chain, has the DAG size and the epoch seed of its own height, and
  -- passes the proof of work of a validator of the chain: for a valid specification, and a block
  -- whose header carries the Merkle root of its DAG, which is not zero.
  pub verify_input-validate_pow :
      (v : Validator) (initial growth : ℕ) (block : Block)
      → IsValid (colossus_x_spec_with_growth initial growth)
      → InRange (colossus_x_spec_with_growth initial growth)
      → block.header.dag_merkle_root ≢ zero_hash
      → validate_dag_merkle_root c (on_chain v initial growth) block.header ≡ ok tt
      → (verify_input c mode_colossus_x initial growth block.header (some block) ≡ ok tt) ↔ (
          (block.header.algorithm_version
            ≡ (colossus_x_spec_with_growth initial growth).algorithm_version)
          × HasEpoch c (colossus_x_spec_with_growth initial growth) block.header block.header.height
          × (validate_pow c (on_chain v initial growth) block ≡ ok tt))
  unfolding verify_input
  verify_input-validate_pow v initial growth block valid range named rooted =
      let header = block.header in
      let own = colossus_x_spec_with_growth initial growth in
      let spec = record own { dag_size_bytes = header.dag_size_bytes } in
      let size = dag_size_for_height_lem own header.height valid range in
      let (dag, made, root) = root_parts (on_chain v initial growth) header _ size rooted in
      let asked =
        spec_from_header_iff initial growth header (λ s. verify_with c s header (some block)) valid
          range in
      let seeded = verify_with_iff own header (some block) _ size in
      let solved = solved_iff spec dag block named root in
      let command = resolved_branch spec header (some block) (colossus_x_mode initial growth) in
      let decided =
        pow_branch (on_chain v initial growth) block spec dag made
          (colossus_x_mode initial growth) in
      (
        λ h.
            let (sized, version, rest) = asked.0 h in
            let (seed, good) = seeded.0 rest in
            (version, (sized, seed), decided ∙ solved.0 (sym command ∙ good)),
        λ (version, (sized, seed), good).
            asked.1 (sized, version, seeded.1 (seed, command ∙ solved.1 (sym decided ∙ good))),
      )
