-- ===== src/Consensus/Header/Rules.antt =====
-- What a header that validateHeader accepts satisfies.
use colossus_x.Prelude.{
  ℕ, ◌+◌, ◌-◌, ◌%◌, ◌^◌, ◌<◌, ◌≤◌, ◌≡◌, ◌≢◌, ◌⊎◌, ◌↔◌, ◌&&◌, inl, inr, refl, sym, ◌∙◌, Bool, true,
  false, arith, ◌==◌, ==_iff, Bool-cases, Result, ok, err, panic, ◌>>=◌, ◌>>◌, require,
  invalid_parent, invalid_timestamp,
}
use colossus_x.Prelude.Int.{ℤ, pos, ltb_ℤ, ◌+ℤ◌}
use colossus_x.Bytes.{Bytes, bytes_eq, bytes_eq_iff, zero_hash}
use colossus_x.Crypto.{Crypto}
use colossus_x.Spec.{Spec, InRange, dag_size_for_height, colossus_x_epoch_grace_blocks}
use colossus_x.Spec.Validate.{IsValid}
use colossus_x.Spec.Size.{dag_size_for_height_lem}
use colossus_x.Types.{BlockHeader, epoch_seed_for_height}
use colossus_x.Chain.{Store}
use colossus_x.Consensus.Header.{
  Validator, wrap, epoch_matches, previous_epoch, validate_epoch_parameters, validate_child,
  validate_parent, validate_linkage,
}

module _ (c : Crypto) where
  -- the header carries the size and the seed of the epoch of a height
  abbrev pub HasEpoch : Spec → BlockHeader → ℕ → Type 0
  HasEpoch spec header height =
      (dag_size_for_height spec height ≡ ok header.dag_size_bytes)
      × (header.epoch_seed ≡ epoch_seed_for_height c spec height)

  -- the header is of its own epoch, or of the one before within the grace window
  abbrev pub EpochOk : Spec → BlockHeader → Type 0
  EpochOk spec header =
      HasEpoch spec header header.height
      ⊎ ((0 < spec.epoch_blocks)
          × (spec.epoch_blocks ≤ header.height)
          × (header.height % spec.epoch_blocks < colossus_x_epoch_grace_blocks)
          × HasEpoch spec header (header.height - spec.epoch_blocks))

  epoch_test_iff :
      (size : ℕ) (own : Bytes) (header : BlockHeader)
      → ((header.dag_size_bytes == size) && bytes_eq header.epoch_seed own ≡ true)
        ↔ ((ok size ≡ ok header.dag_size_bytes) × (header.epoch_seed ≡ own))
  epoch_test_iff size own header =
      let seeds = bytes_eq_iff header.epoch_seed own in
      elim (Bool-cases (bytes_eq header.epoch_seed own)) [
        | inl e ↦ ground (arith, seeds, e)
        | inr e ↦ ground (arith, seeds, e)
      ]

  epoch_matches-true :
      (spec : Spec) (header : BlockHeader) (height : ℕ)
      → epoch_matches c spec header height ≡ ok true
      → HasEpoch spec header height
  unfolding epoch_matches
  epoch_matches-true spec header height = go (dag_size_for_height spec height)
    where
      go :
          (r : Result ℕ)
          → (r >>= λ size. ok (
              (header.dag_size_bytes == size)
              && bytes_eq header.epoch_seed (epoch_seed_for_height c spec height)))
            ≡ ok true
          → (r ≡ ok header.dag_size_bytes)
            × (header.epoch_seed ≡ epoch_seed_for_height c spec height)
      go (ok size) e = (epoch_test_iff size (epoch_seed_for_height c spec height) header).0 cc
      go (err x) e = absurd cc
      go panic e = absurd cc

  true-epoch_matches :
      (spec : Spec) (header : BlockHeader) (height : ℕ)
      → HasEpoch spec header height
      → epoch_matches c spec header height ≡ ok true
  unfolding epoch_matches
  true-epoch_matches spec header height (size, own) =
      let test =
        (epoch_test_iff header.dag_size_bytes (epoch_seed_for_height c spec height) header).1
          (refl, own) in
      rw (size, test) refl

  previous_epoch_iff :
      (spec : Spec) (header : BlockHeader)
      → (previous_epoch c spec header ≡ ok tt) ↔ (
          (0 < spec.epoch_blocks)
          × (spec.epoch_blocks ≤ header.height)
          × (header.height % spec.epoch_blocks < colossus_x_epoch_grace_blocks)
          × (epoch_matches c spec header (header.height - spec.epoch_blocks) ≡ ok true))
  unfolding previous_epoch
  previous_epoch_iff spec header = (λ h. ground arith, λ h. ground arith)

  validate_epoch_parameters-EpochOk :
      (spec : Spec) (header : BlockHeader)
      → validate_epoch_parameters c spec header ≡ ok tt
      → EpochOk spec header
  unfolding validate_epoch_parameters
  validate_epoch_parameters-EpochOk spec header e =
      let now = epoch_matches-true spec header header.height in
      let before = epoch_matches-true spec header (header.height - spec.epoch_blocks) in
      let previous = previous_epoch_iff spec header in ground (arith, now, before, previous)

  EpochOk-validate_epoch_parameters :
      (spec : Spec) (header : BlockHeader) (own : Bool)
      → epoch_matches c spec header header.height ≡ ok own
      → EpochOk spec header
      → validate_epoch_parameters c spec header ≡ ok tt
  unfolding validate_epoch_parameters
  EpochOk-validate_epoch_parameters spec header own total h =
      let now = true-epoch_matches spec header header.height in
      let before = true-epoch_matches spec header (header.height - spec.epoch_blocks) in
      let previous = previous_epoch_iff spec header in ground (arith, now, before, previous)

  epoch_matches-total :
      (spec : Spec) (header : BlockHeader) (height : ℕ) {size : ℕ}
      → dag_size_for_height spec height ≡ ok size
      → (own : Bool) × (epoch_matches c spec header height ≡ ok own)
  unfolding epoch_matches
  epoch_matches-total spec header height {size} e = (
    (header.dag_size_bytes == size)
        && bytes_eq header.epoch_seed (epoch_seed_for_height c spec height),
    rw e refl,
  )

  module _ {S : Type 0} (ops : Store S) (now : ℤ) (v : Validator) (store : S) where
    -- the parent is stored, one below and earlier; the genesis block has none
    abbrev pub ParentOk : BlockHeader → Type 0
    ParentOk header =
        ((header.height ≡ 0) × (header.parent_hash ≡ zero_hash))
        ⊎ ((0 < header.height)
            × ((parent : BlockHeader) × (ops.get_header store header.parent_hash ≡ ok parent)
                × ((parent.height + 1) % 2 ^ 64 ≡ header.height)
                × (ltb_ℤ parent.timestamp header.timestamp ≡ true)))

    validate_child_iff :
        (header : BlockHeader)
        → (validate_child c ops now v store header ≡ ok tt) ↔ (
            (parent : BlockHeader) × (ops.get_header store header.parent_hash ≡ ok parent)
            × ((parent.height + 1) % 2 ^ 64 ≡ header.height)
            × (ltb_ℤ parent.timestamp header.timestamp ≡ true))
    unfolding validate_child
    validate_child_iff header = (
      λ h. to (ops.get_header store header.parent_hash) h,
      λ (parent, is, next, later).
          fro (ops.get_header store header.parent_hash) parent is next later,
    )
      where
        to :
            (r : Result BlockHeader)
            → (do
              parent ← wrap r invalid_parent
              require ((parent.height + 1) % 2 ^ 64 == header.height) invalid_parent
              require (ltb_ℤ parent.timestamp header.timestamp) invalid_timestamp)
              ≡ ok tt
            → (parent : BlockHeader) × (r ≡ ok parent)
              × ((parent.height + 1) % 2 ^ 64 ≡ header.height)
              × (ltb_ℤ parent.timestamp header.timestamp ≡ true)
        to (ok parent) h = (parent, refl, ground arith, ground arith)
        to (err e) h = absurd cc
        to panic h = absurd cc

        fro :
            (r : Result BlockHeader) (parent : BlockHeader)
            → r ≡ ok parent
            → (parent.height + 1) % 2 ^ 64 ≡ header.height
            → ltb_ℤ parent.timestamp header.timestamp ≡ true
            → (do
              parent ← wrap r invalid_parent
              require ((parent.height + 1) % 2 ^ 64 == header.height) invalid_parent
              require (ltb_ℤ parent.timestamp header.timestamp) invalid_timestamp)
              ≡ ok tt
        fro r parent is next later =
            let test = (==_iff ((parent.height + 1) % 2 ^ 64) header.height).1 next in
            rw (is, test, later) refl

    validate_parent_iff :
        (header : BlockHeader)
        → (validate_parent c ops now v store header ≡ ok tt) ↔ ParentOk header
    unfolding validate_parent
    validate_parent_iff header =
        let child = validate_child_iff header in
        let zero = bytes_eq_iff header.parent_hash zero_hash in
        elim (Bool-cases (header.height == 0)) [
          | inl e ↦ ground (arith, e, zero)
          | inr e ↦
              let same : validate_parent c ops now v store header
                  ≡ validate_child c ops now v store header =
                rw e refl in
              (
                λ h. inr (ground (arith, e), child.0 (sym same ∙ h)),
                λ h. elim h [
                  | inl (z, _) ↦ absurd (ground (arith, e, z))
                  | inr (_, p) ↦ same ∙ child.1 p
                ],
              )
        ]

    -- what a header has to satisfy before its proof of work is looked at
    abbrev pub LinkageOk : BlockHeader → Type 0
    LinkageOk header =
        (header.algorithm_version ≡ v.config.spec.algorithm_version)
        × EpochOk v.config.spec header
        × (header.target ≢ zero_hash)
        × ParentOk header
        × (ltb_ℤ (now +ℤ pos 7200) header.timestamp ≡ false)

    -- A validator of a valid specification lets a header through to the proof of work exactly when
    -- it has the algorithm version of the chain, the DAG size and the epoch seed of its own
    -- epoch or, in the first 64 blocks of an epoch, of the one before, a target other than zero,
    -- a stored parent that is one below and earlier (or height 0 and the zero parent), and a time
    -- at most two hours ahead of the clock.
    pub validate_linkage_iff :
        (header : BlockHeader)
        → IsValid v.config.spec
        → InRange v.config.spec
        → (validate_linkage c ops now v store header ≡ ok tt) ↔ LinkageOk header
    unfolding validate_linkage
    validate_linkage_iff header valid range =
        let size = dag_size_for_height_lem v.config.spec header.height valid range in
        let (own, total) = epoch_matches-total v.config.spec header header.height size in
        let epoch = validate_epoch_parameters-EpochOk v.config.spec header in
        let epoch' = EpochOk-validate_epoch_parameters v.config.spec header own total in
        let zero = bytes_eq_iff header.target zero_hash in
        let parent = validate_parent_iff header in
        (λ h. ground (arith, epoch, zero, parent), λ h. ground (arith, epoch', zero, parent))
