-- ===== src/Chain/Disk/Paths.antt =====
-- Different blocks and heights have different files, and none of them is a temporary file.
use colossus_x.Prelude.{
  ℕ, ◌≡◌, ◌≢◌, ◌↔◌, refl, sym, ap, ap₂, ◌∙◌, subst, Bool, true, false, ◌&&◌, Bool-cases, inl, inr,
  Option, [], ◌∷◌, ◌++◌, arith, length,
}
use colossus_x.Bytes.{Bytes, IsArray, bytes_eq, bytes_eq_iff, bytes_eq_self, append_cancel}
use colossus_x.Bytes.Texts.{codes}
use colossus_x.Decimal.{format_uint}
use colossus_x.Decimal.RoundTrip.{format_uint-injective}
use colossus_x.Hex.{hex_encode}
use colossus_x.Hex.RoundTrip.{hex_encode-injective}
use colossus_x.Chain.Disk.{
  FilePath, Folder, datadir, blocks_dir, heights_dir, folder_eq, path_eq, Files, put_file,
  meta_path, legacy_path, block_path, height_path, temp_path,
}

folder_eq-true : (a b : Folder) → folder_eq a b ≡ true → a ≡ b
folder_eq-true datadir datadir e = refl
folder_eq-true blocks_dir blocks_dir e = refl
folder_eq-true heights_dir heights_dir e = refl
folder_eq-true datadir blocks_dir e = cc
folder_eq-true datadir heights_dir e = cc
folder_eq-true blocks_dir datadir e = cc
folder_eq-true blocks_dir heights_dir e = cc
folder_eq-true heights_dir datadir e = cc
folder_eq-true heights_dir blocks_dir e = cc

folder_eq_self : (a : Folder) → folder_eq a a ≡ true
folder_eq_self datadir = refl
folder_eq_self blocks_dir = refl
folder_eq_self heights_dir = refl

and_true : (a b : Bool) → (a && b) ≡ true → (a ≡ true) × (b ≡ true)
and_true true true e = (refl, refl)
and_true true false e = cc
and_true false b e = cc

path_eq_iff : (p q : FilePath) → (path_eq p q ≡ true) ↔ (p ≡ q)
unfolding path_eq
path_eq_iff p q = (
  λ e.
      let (folders, names) = and_true (folder_eq p.0 q.0) (bytes_eq p.1 q.1) e in
      ap₂ (λ (f : Folder) (n : Bytes). (f, n)) (folder_eq-true p.0 q.0 folders)
        ((bytes_eq_iff p.1 q.1).0 names),
  λ e.
      subst (λ (x : FilePath). path_eq p x ≡ true) e
        (rw (folder_eq_self p.0, bytes_eq_self p.1) refl),
)

pub put_file-same : (files : Files) (p : FilePath) (v : Option Bytes) → put_file files p v p ≡ v
put_file-same files p v = rw ((path_eq_iff p p).1 refl) refl

pub put_file-other :
    (files : Files) (p q : FilePath) (v : Option Bytes) → p ≢ q → put_file files p v q ≡ files q
put_file-other files p q v ne = elim (Bool-cases (path_eq p q)) [
  | inl e ↦ absurd (ne ((path_eq_iff p q).0 e))
  | inr e ↦ rw e refl
]

-- the last byte tells temporary files from the others
abbrev pub last_byte : Bytes → ℕ
last_byte [] = 0
last_byte (b ∷ []) = b
last_byte (b ∷ d ∷ r) = last_byte (d ∷ r)

last_byte-append : (s : Bytes) (b : ℕ) (r : Bytes) → last_byte (s ++ (b ∷ r)) ≡ last_byte (b ∷ r)
last_byte-append [] b r = refl
last_byte-append (x ∷ []) b r = refl
last_byte-append (x ∷ y ∷ s) b r = last_byte-append (y ∷ s) b r

abbrev pub IsLasting : FilePath → Type 0
IsLasting p = last_byte p.1 ≢ b'p'

pub meta_path-IsLasting : IsLasting meta_path
meta_path-IsLasting e = omega (arith, e)

pub block_path-IsLasting : (hash : Bytes) → IsLasting (block_path hash)
unfolding block_path
block_path-IsLasting hash e =
    omega (arith, e, last_byte-append (hex_encode hash) b'.' (codes "json"))

pub height_path-IsLasting : (height : ℕ) → IsLasting (height_path height)
unfolding height_path
height_path-IsLasting height e =
    omega (arith, e, last_byte-append (format_uint height) b'.' (codes "txt"))

pub temp_path-other : (p q : FilePath) → IsLasting q → temp_path p ≢ q
unfolding temp_path
temp_path-other (folder, name) q lasting e =
    lasting
      (ap (λ (x : FilePath). last_byte x.1) (sym e) ∙ last_byte-append name b'.' (codes "tmp"))

pub block_path-injective :
    (g h : Bytes) → IsArray 32 g → IsArray 32 h → block_path g ≡ block_path h → g ≡ h
unfolding block_path
block_path-injective g h p q e =
    hex_encode-injective g h p q
      (append_cancel (hex_encode g) (hex_encode h) (codes ".json") (ap (λ (x : FilePath). x.1) e))

pub height_path-injective : (m n : ℕ) → height_path m ≡ height_path n → m ≡ n
unfolding height_path
height_path-injective m n e =
    format_uint-injective m n
      (append_cancel (format_uint m) (format_uint n) (codes ".txt") (ap (λ (x : FilePath). x.1) e))

pub block_path-height_path : (h : Bytes) (n : ℕ) → block_path h ≢ height_path n
unfolding block_path height_path
block_path-height_path h n e = let folders = ap (λ (x : FilePath). x.0) e in cc

pub block_path-meta_path : (h : Bytes) → block_path h ≢ meta_path
unfolding block_path
block_path-meta_path h e = let folders = ap (λ (x : FilePath). x.0) e in cc

pub height_path-meta_path : (n : ℕ) → height_path n ≢ meta_path
unfolding height_path
height_path-meta_path n e = let folders = ap (λ (x : FilePath). x.0) e in cc

pub block_path-legacy_path : (h : Bytes) → block_path h ≢ legacy_path
unfolding block_path
block_path-legacy_path h e = let folders = ap (λ (x : FilePath). x.0) e in cc

pub height_path-legacy_path : (n : ℕ) → height_path n ≢ legacy_path
unfolding height_path
height_path-legacy_path n e = let folders = ap (λ (x : FilePath). x.0) e in cc

pub meta_path-legacy_path : meta_path ≢ legacy_path
meta_path-legacy_path e = let names = ap (λ (x : FilePath). x.1) e in omega (arith, ap length names)
