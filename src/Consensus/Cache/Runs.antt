-- ===== src/Consensus/Cache/Runs.antt =====
-- Runs of a validator: checks of headers and blocks, with changes of the mining backend and Close
-- between them.
use colossus_x.Prelude.{◌≡◌, refl, ap₂, true, Option, List, [], ◌∷◌, Result, ok}
use colossus_x.Prelude.Int.{ℤ}
use colossus_x.Crypto.{Crypto}
use colossus_x.Spec.{validate}
use colossus_x.Spec.Validate.{validate_iff}
use colossus_x.Types.{Block, BlockHeader, ChainConfig}
use colossus_x.Chain.{Store}
use colossus_x.Consensus.Header.{validate_header_full, validate_block}
use colossus_x.Consensus.Cache.{
  Allocator, Backend, Setup, Caches, no_caches, plain, new_setup, set_mining_backend, close,
  validate_header_kept, validate_block_kept,
}
use colossus_x.Consensus.Cache.Keys.{HasSeed}
use colossus_x.Consensus.Cache.Coherent.{Coherent}
use colossus_x.Consensus.Cache.Keeps.{
  no_caches-Coherent, close-Coherent, set_mining_backend-Coherent,
}
use colossus_x.Consensus.Cache.Agrees.{
  validation_allocator, validate_header_kept-Agrees, validate_block_kept-Agrees,
}

-- a call of a method, with the reading of the clock and the store that it is given
pub data Request (S : Type 0) : Type 0 where
  check_header : ℤ → S → BlockHeader → Request S
  check_block : ℤ → S → Block → Request S
  set_backend : Option Backend → Option Allocator → Request S
  close_all : Request S

-- the epoch seeds of the headers are hashes
abbrev pub HaveSeeds : {S : Type 0} → List (Request S) → Type 0
HaveSeeds [] = Unit
HaveSeeds (check_header now store header ∷ later) = HasSeed header × HaveSeeds later
HaveSeeds (check_block now store block ∷ later) = HasSeed block.header × HaveSeeds later
HaveSeeds (set_backend backend allocator ∷ later) = HaveSeeds later
HaveSeeds (close_all ∷ later) = HaveSeeds later

module _ (c : Crypto) {S : Type 0} (ops : Store S) where
  -- the answers of ValidateHeader and ValidateBlock in a run
  unfoldable pub answers : Setup → Caches → List (Request S) → List (Result (Unit {0}))
  answers v s [] = []
  answers v s (check_header now store header ∷ later) =
      let (answer, s') = validate_header_kept c ops now v store header true s in
      answer ∷ answers v s' later
  answers v s (check_block now store block ∷ later) =
      let (answer, s') = validate_block_kept c ops now v store block s in
      answer ∷ answers v s' later
  answers v s (set_backend backend allocator ∷ later) =
      let (v', s') = set_mining_backend backend allocator v s in answers v' s' later
  answers v s (close_all ∷ later) = answers v (close s) later

  -- the answers of a validator that keeps nothing
  unfoldable pub plain_answers : Setup → List (Request S) → List (Result (Unit {0}))
  plain_answers v [] = []
  plain_answers v (check_header now store header ∷ later) =
      validate_header_full c ops now (plain v (validation_allocator v)) store header
      ∷ plain_answers v later
  plain_answers v (check_block now store block ∷ later) =
      validate_block c ops now (plain v (validation_allocator v)) store block
      ∷ plain_answers v later
  plain_answers v (set_backend backend allocator ∷ later) =
      plain_answers (set_mining_backend backend allocator v no_caches).0 later
  plain_answers v (close_all ∷ later) = plain_answers v later

  Coherent-answers :
      (requests : List (Request S)) (v : Setup) (s : Caches)
      → HaveSeeds requests
      → Coherent c v s
      → answers v s requests ≡ plain_answers v requests
  unfolding answers plain_answers validate_header_full set_mining_backend
  Coherent-answers [] v s seeds k = refl
  Coherent-answers (check_header now store header ∷ later) v s seeds k =
      let agrees = validate_header_kept-Agrees c v ops now store header true s seeds.0 k in
      ap₂ (λ a rest. a ∷ rest) agrees.same (Coherent-answers later v _ seeds.1 agrees.kept)
  Coherent-answers (check_block now store block ∷ later) v s seeds k =
      let agrees = validate_block_kept-Agrees c v ops now store block s seeds.0 k in
      ap₂ (λ a rest. a ∷ rest) agrees.same (Coherent-answers later v _ seeds.1 agrees.kept)
  Coherent-answers (set_backend backend allocator ∷ later) v s seeds k =
      Coherent-answers later (set_mining_backend backend allocator v s).0
        (set_mining_backend backend allocator v s).1 seeds
        (set_mining_backend-Coherent c v backend allocator s k)
  Coherent-answers (close_all ∷ later) v s seeds k =
      Coherent-answers later v (close s) seeds (close-Coherent c v s k)

  -- A validator that keeps DAGs and Merkle roots answers every run as one that generates them anew
  -- for each check: with the same verdicts and the same errors, whatever backends and allocators it
  -- is given on the way, and when it is closed and used again. The specification is valid and the
  -- epoch seeds are hashes; an allocator answers alike whenever it is asked for one size.
  pub answers-eq-plain_answers :
      (config : ChainConfig) (backend : Backend) (requests : List (Request S))
      → validate config.spec ≡ ok tt
      → HaveSeeds requests
      → answers (new_setup config backend) no_caches requests
        ≡ plain_answers (new_setup config backend) requests
  unfolding new_setup
  answers-eq-plain_answers config backend requests valid seeds =
      Coherent-answers requests (new_setup config backend) no_caches seeds
        (no_caches-Coherent c (new_setup config backend) ((validate_iff config.spec).0 valid))
