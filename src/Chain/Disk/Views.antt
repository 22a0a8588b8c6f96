-- ===== src/Chain/Disk/Views.antt =====
-- The files of a disk store and the maps of a memory store that hold the same blocks.
use colossus_x.Prelude.{
  ℕ, ◌≡◌, ◌≢◌, ◌⊎◌, inl, inr, refl, sym, ap, ◌∙◌, subst, Bool-cases, Option, none, some, ◌==◌,
  ==_iff, ok,
}
use colossus_x.Bytes.{Bytes, IsArray, bytes_eq, bytes_eq_iff}
use colossus_x.Hex.{hex_encode}
use colossus_x.Types.{Block}
use colossus_x.Chain.Memory.{put, put_height}
use colossus_x.Chain.Disk.{Files, put_file, Json, block_path, height_path, big_int_to_string}
use colossus_x.Chain.Disk.Paths.{
  put_file-same, put_file-other, block_path-injective, height_path-injective,
}
use colossus_x.Consensus.Insert.Memory.{put-same, put-other}

abbrev pub Has : (Bytes → Option Block) → Bytes → Type 0
Has blocks h = (b : Block) × (blocks h ≡ some b)

module _ (json : Json) where
  -- the file of a hash, and the entries of two maps
  abbrev pub SameBlock : Files → (Bytes → Option Block) → (Bytes → Option ℕ) → Bytes → Type 0
  SameBlock f blocks works h =
      ((f (block_path h) ≡ none) × (blocks h ≡ none) × (works h ≡ none))
      ⊎ ((contents : Bytes) × (b : Block) × (w : ℕ) × (f (block_path h) ≡ some contents)
          × (json.unmarshal_entry contents ≡ ok (b, big_int_to_string (some w)))
          × (blocks h ≡ some b)
          × (works h ≡ some w))

  abbrev pub Blocks : Files → (Bytes → Option Block) → (Bytes → Option ℕ) → Type 0
  Blocks f blocks works = (h : Bytes) → IsArray 32 h → SameBlock f blocks works h

  -- the file of a height, and the entry of a map
  abbrev pub SameHeight : Files → (ℕ → Option Bytes) → (Bytes → Option Block) → ℕ → Type 0
  SameHeight f heights blocks n =
      ((f (height_path n) ≡ none) × (heights n ≡ none))
      ⊎ ((h : Bytes) × (f (height_path n) ≡ some (hex_encode h))
          × (heights n ≡ some h)
          × IsArray 32 h
          × Has blocks h)

  abbrev pub Heights : Files → (ℕ → Option Bytes) → (Bytes → Option Block) → Type 0
  Heights f heights blocks = (n : ℕ) → SameHeight f heights blocks n

  pub Blocks-agree :
      (f g : Files) (blocks : Bytes → Option Block) (works : Bytes → Option ℕ)
      → ((h : Bytes) → g (block_path h) ≡ f (block_path h))
      → Blocks f blocks works
      → Blocks g blocks works
  Blocks-agree f g blocks works same k h p = elim (k h p) [
    | inl (file, block, work) ↦ inl (same h ∙ file, block, work)
    | inr (contents, b, w, file, is, block, work) ↦
        inr (contents, b, w, same h ∙ file, is, block, work)
  ]

  pub Heights-agree :
      (f g : Files) (heights : ℕ → Option Bytes) (blocks more : Bytes → Option Block)
      → ((n : ℕ) → g (height_path n) ≡ f (height_path n))
      → ((h : Bytes) → Has blocks h → Has more h)
      → Heights f heights blocks
      → Heights g heights more
  Heights-agree f g heights blocks more same grow k n = elim (k n) [
    | inl (file, height) ↦ inl (same n ∙ file, height)
    | inr (h, file, height, p, has) ↦ inr (h, same n ∙ file, height, p, grow h has)
  ]

  pub Blocks-put :
      (f : Files) (blocks : Bytes → Option Block) (works : Bytes → Option ℕ) (hash contents : Bytes)
      (b : Block) (w : ℕ)
      → IsArray 32 hash
      → json.unmarshal_entry contents ≡ ok (b, big_int_to_string (some w))
      → Blocks f blocks works
      → Blocks (put_file f (block_path hash) (some contents)) (put blocks hash b) (put works hash w)
  Blocks-put f blocks works hash contents b w p is k h q = elim (Bool-cases (bytes_eq hash h)) [
    | inl same ↦
        subst
          (SameBlock (put_file f (block_path hash) (some contents)) (put blocks hash b)
            (put works hash w))
          ((bytes_eq_iff hash h).0 same)
          (inr (
            contents,
            b,
            w,
            put_file-same f (block_path hash) (some contents),
            is,
            put-same blocks hash b,
            put-same works hash w,
          ))
    | inr other ↦
        let apart : hash ≢ h = λ e. let yes = (bytes_eq_iff hash h).1 e in cc in
        let file =
          put_file-other f (block_path hash) (block_path h) (some contents)
            (λ e. apart (block_path-injective hash h p q e)) in
        elim (k h q) [
          | inl (old, block, work) ↦ inl (
            file ∙ old,
            put-other blocks hash h b apart ∙ block,
            put-other works hash h w apart ∙ work,
          )
          | inr (text, a, v, old, was, block, work) ↦ inr (
            text,
            a,
            v,
            file ∙ old,
            was,
            put-other blocks hash h b apart ∙ block,
            put-other works hash h w apart ∙ work,
          )
        ]
  ]

  pub Heights-put :
      (f : Files) (heights : ℕ → Option Bytes) (blocks : Bytes → Option Block) (n : ℕ)
      (hash : Bytes)
      → IsArray 32 hash
      → Has blocks hash
      → Heights f heights blocks
      → Heights
          (put_file f (height_path n) (some (hex_encode hash)))
          (put_height heights n hash)
          blocks
  Heights-put f heights blocks n hash p has k m = elim (Bool-cases (n == m)) [
    | inl same ↦
        let at =
          ap (λ (i : ℕ). put_file f (height_path n) (some (hex_encode hash)) (height_path i))
            (sym ((==_iff n m).0 same))
          ∙ put_file-same f (height_path n) (some (hex_encode hash)) in
        inr (hash, at, rw same refl, p, has)
    | inr other ↦
        let file =
          put_file-other f (height_path n) (height_path m) (some (hex_encode hash))
            (λ e. let yes = (==_iff n m).1 (height_path-injective n m e) in cc) in
        elim (k m) [
          | inl (old, height) ↦ inl (file ∙ old, rw other height)
          | inr (h, old, height, q, there) ↦ inr (h, file ∙ old, rw other height, q, there)
        ]
  ]
