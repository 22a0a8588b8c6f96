-- ===== src/Node/Template.antt =====
-- The header that a node mines follows the rules of its own validator.
use colossus_x.Prelude.{ℕ, ◌+◌, ◌%◌, ◌^◌, ◌<◌, ◌≡◌, ◌≢◌, inl, inr, refl, true, false, arith, ok}
use colossus_x.Prelude.Int.{ℤ, pos, ltb_ℤ, ◌+ℤ◌}
use colossus_x.Bytes.{Bytes, zero_hash}
use colossus_x.Crypto.{Crypto}
use colossus_x.Spec.{InRange, resolved_for_height}
use colossus_x.Spec.Validate.{IsValid}
use colossus_x.Spec.Size.{ideal_size, epoch_of, dag_size_for_height_lem}
use colossus_x.Types.{Block, BlockHeader, block_hash, epoch_seed_for_height}
use colossus_x.Chain.{Store}
use colossus_x.Consensus.Header.{Validator, validate_linkage}
use colossus_x.Consensus.Header.Rules.{validate_linkage_iff}
use colossus_x.Node.{max_time, template, next_header}

time_later : (now t : ℤ) → ltb_ℤ t (max_time now (t +ℤ pos 1)) ≡ true
unfolding max_time ◌+ℤ◌
time_later now t = ground arith

time_bounded :
    (now t : ℤ)
    → ltb_ℤ t (now +ℤ pos 7200) ≡ true
    → ltb_ℤ (now +ℤ pos 7200) (max_time now (t +ℤ pos 1)) ≡ false
unfolding max_time ◌+ℤ◌
time_bounded now t h = ground (arith, h)

module _ (c : Crypto) {S : Type 0} (ops : Store S) where
  -- A node builds the header of its next block with no panic, and its own validator lets that header
  -- through to the proof of work: for a valid specification, a tip that the store has under its
  -- hash, whose height is not the last one and whose time is less than two hours ahead of the
  -- clock, and a target other than zero.
  pub next_header-validate_linkage :
      (v : Validator) (store : S) (bits : Bytes) (now : ℤ) (height_text : ℕ → Bytes) (tip : Block)
      → IsValid v.config.spec
      → InRange v.config.spec
      → ops.get_header store (block_hash c tip) ≡ ok tip.header
      → tip.header.height + 1 < 2 ^ 64
      → ltb_ℤ tip.header.timestamp (now +ℤ pos 7200) ≡ true
      → bits ≢ zero_hash
      → (header : BlockHeader) × (next_header c v.config.spec bits now height_text tip ≡ ok header)
        × (validate_linkage c ops now v store header ≡ ok tt)
  unfolding next_header resolved_for_height epoch_seed_for_height
  next_header-validate_linkage v store bits now height_text tip valid range stored last early
        bits_ok =
      let height = (tip.header.height + 1) % 2 ^ 64 in
      let small : height ≡ tip.header.height + 1 = omega (arith, last) in
      let size = dag_size_for_height_lem v.config.spec height valid range in
      let resolved = record v.config.spec {
        dag_size_bytes = ideal_size v.config.spec (epoch_of v.config.spec height);
      } in
      let header = template c resolved bits now height_text tip in
      (
        header,
        rw size refl,
        (validate_linkage_iff c ops now v store header valid range).1 (
          refl,
          inl (size, refl),
          bits_ok,
          inr (
            omega (arith, small),
            (tip.header, stored, refl, time_later now tip.header.timestamp),
          ),
          time_bounded now tip.header.timestamp early,
        ),
      )
