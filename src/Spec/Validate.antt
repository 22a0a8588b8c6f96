-- ===== src/Spec/Validate.antt =====
-- Spec.Validate accepts exactly the specifications that the rest of the program can work with.
use Prim.Native.String.{String}
use text.Mathlib.Text.{◌==◌ as str_eq}
use text.Mathlib.TextEquality.{eq_iff}
use colossus_x.Prelude.{◌%◌, ◌<◌, ◌≡◌, refl, ◌⊎◌, ◌↔◌, inl, inr, arith, ok, true, if◌then◌else◌}
use colossus_x.Spec.{Spec, mode_colossus_x, initial_dag_size, growth_dag_size_per_epoch, validate}

pub record IsValid (s : Spec) : Type 0 where
  pub initial_pos : 0 < initial_dag_size s
  pub node_fixed : s.node_size ≡ 256
  pub reads_pos : 0 < s.reads_per_hash
  pub epoch_pos : 0 < s.epoch_blocks
  pub initial_aligned : initial_dag_size s % 256 ≡ 0
  pub growth_aligned : growth_dag_size_per_epoch s % 256 ≡ 0
  pub mode_known : (s.mode ≡ "") ⊎ (s.mode ≡ "colossusx")

pub growth_pos : (s : Spec) → 0 < growth_dag_size_per_epoch s
unfolding growth_dag_size_per_epoch
growth_pos s = ground arith

mode_ok :
    (m : String)
    → str_eq (if str_eq m "" then mode_colossus_x else m) mode_colossus_x ≡ true
    → (m ≡ "") ⊎ (m ≡ "colossusx")
mode_ok m h = ground (arith, eq_iff m "", eq_iff m "colossusx")

ok_mode :
    (m : String)
    → (m ≡ "") ⊎ (m ≡ "colossusx")
    → str_eq (if str_eq m "" then mode_colossus_x else m) mode_colossus_x ≡ true
ok_mode m h = elim h [ inl e ↦ rw e refl | inr e ↦ rw e refl ]

IsValid-of_validate : (s : Spec) → validate s ≡ ok tt → IsValid s
unfolding validate
IsValid-of_validate s h = ground (arith, mode_ok s.mode)

validate_of_IsValid : (s : Spec) → IsValid s → validate s ≡ ok tt
unfolding validate
validate_of_IsValid s v = ground (arith, ok_mode s.mode, growth_pos s)

-- Validate returns no error exactly for the specifications whose initial size is positive, whose
-- node size is 256, whose read count and epoch length are positive, whose initial size and growth
-- are multiples of the node size, and whose mode is colossusx or left out.
pub validate_iff : (s : Spec) → (validate s ≡ ok tt) ↔ IsValid s
validate_iff s = (IsValid-of_validate s, validate_of_IsValid s)
