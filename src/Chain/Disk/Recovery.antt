-- ===== src/Chain/Disk/Recovery.antt =====
-- Whatever calls fail, the files of a store can be opened again, and lead to a tip that can be read.
use colossus_x.Prelude.{
  ℕ, ◌≡◌, ◌≢◌, ◌⊎◌, inl, inr, ==_iff, sym, ap, ◌∙◌, subst, Bool-cases, Option, none, some, arith,
  ◌==◌, Result, ok,
}
use colossus_x.Bytes.{Bytes, IsArray, bytes_eq, bytes_eq_iff, zero_hash}
use colossus_x.Hex.{hex_encode}
use colossus_x.Types.{Block}
use colossus_x.Chain.Disk.{
  FilePath, Files, put_file, Entry, Json, DiskStore, meta_path, legacy_path, block_path,
  height_path, big_int_to_string,
}
use colossus_x.Chain.Disk.Paths.{
  put_file-same, put_file-other, block_path-IsLasting, height_path-IsLasting, meta_path-IsLasting,
  block_path-injective, height_path-injective, block_path-height_path, block_path-meta_path,
  height_path-meta_path, block_path-legacy_path, height_path-legacy_path, meta_path-legacy_path,
}
use colossus_x.Chain.Disk.Writes.{SameFiles, Wrote}

-- the JSON of an entry decodes back to it
abbrev pub EntryDecodes : Json → Entry → Type 0
EntryDecodes json e =
    (contents : Bytes) × (json.marshal_entry e ≡ ok contents)
    × (json.unmarshal_entry contents ≡ ok e)

-- the JSON of two texts of hashes decodes back to them
abbrev pub MetaDecodes : Json → Type 0
MetaDecodes json =
    (g t : Bytes)
    → IsArray 32 g
    → IsArray 32 t
    → (contents : Bytes) × (json.marshal_meta (hex_encode g, hex_encode t) ≡ ok contents)
      × (json.unmarshal_meta contents ≡ ok (hex_encode g, hex_encode t))

some-injective {ℓ} : {A : Type ℓ} {a b : A} → some a ≡ some b → a ≡ b
some-injective e = cc

module _ (json : Json) where
  -- a block that can be read
  abbrev pub Stored : Files → Bytes → Type 0
  Stored files h =
      (contents : Bytes) × (b : Block) × (w : Option ℕ) × (files (block_path h) ≡ some contents)
      × (json.unmarshal_entry contents ≡ ok (b, big_int_to_string w))

  -- a tip: none yet, or a block that can be read
  abbrev pub IsTip : Files → Bytes → Type 0
  IsTip files t = IsArray 32 t × ((t ≡ zero_hash) ⊎ Stored files t)

  -- what chain_meta.json says
  abbrev pub MetaSays : Files → Option Bytes → Type 0
  MetaSays files none = Unit
  MetaSays files (some contents) =
      (g t : Bytes) × (json.unmarshal_meta contents ≡ ok (hex_encode g, hex_encode t))
      × IsArray 32 g
      × IsTip files t

  pub record Durable (d : DiskStore) : Type 0 where
    pub genesis_array : IsArray 32 d.genesis_hash
    pub tip : IsTip d.files d.current_tip
    pub meta : MetaSays d.files (d.files meta_path)
    pub heights :
        (n : ℕ) (contents : Bytes)
        → d.files (height_path n) ≡ some contents
        → (h : Bytes) × (contents ≡ hex_encode h) × IsArray 32 h × Stored d.files h
    pub blocks :
        (h contents : Bytes)
        → IsArray 32 h
        → d.files (block_path h) ≡ some contents
        → (b : Block) × (w : Option ℕ) × (json.unmarshal_entry contents
            ≡ ok (b, big_int_to_string w))
    pub no_snapshot : d.files legacy_path ≡ none

  -- the blocks that can be read after a change can be read
  abbrev pub MoreStored : Files → Files → Type 0
  MoreStored f g = (h : Bytes) → IsArray 32 h → Stored f h → Stored g h

  pub IsTip-more : (f g : Files) (t : Bytes) → MoreStored f g → IsTip f t → IsTip g t
  IsTip-more f g t more (a, inl zero) = (a, inl zero)
  IsTip-more f g t more (a, inr s) = (a, inr (more t a s))

  MetaSays-more : (f g : Files) (o : Option Bytes) → MoreStored f g → MetaSays f o → MetaSays g o
  MetaSays-more f g none more m = tt
  MetaSays-more f g (some contents) more (k, t, is, a, tip) =
      (k, t, is, a, IsTip-more f g t more tip)

  pub MoreStored-same : (f g : Files) → SameFiles g f → MoreStored f g
  MoreStored-same f g same h a (contents, b, w, at, is) =
      (contents, b, w, same (block_path h) (block_path-IsLasting h) ∙ at, is)

  pub Durable-same :
      (d e : DiskStore)
      → e.genesis_hash ≡ d.genesis_hash
      → e.current_tip ≡ d.current_tip
      → SameFiles e.files d.files
      → Durable d
      → Durable e
  Durable-same d e g t same k =
      let more = MoreStored-same d.files e.files same in
      let at = same meta_path meta_path-IsLasting in
      record {
        genesis_array = subst (IsArray 32) (sym g) k.genesis_array;
        tip = subst (IsTip e.files) (sym t) (IsTip-more d.files e.files d.current_tip more k.tip);
        meta =
            subst (MetaSays e.files) (sym at)
              (MetaSays-more d.files e.files (d.files meta_path) more k.meta);
        heights = λ n contents found.
            let (h, is, a, s) =
              k.heights n contents (sym (same (height_path n) (height_path-IsLasting n)) ∙ found) in
            (h, is, a, more h a s);
        blocks = λ h contents a found.
            k.blocks h contents a (sym (same (block_path h) (block_path-IsLasting h)) ∙ found);
        no_snapshot = same legacy_path (λ e. omega (arith, e)) ∙ k.no_snapshot;
      }

  pub with_tip :
      (d : DiskStore) (g t : Bytes)
      → IsArray 32 g
      → IsTip d.files t
      → Durable d
      → Durable (record d { genesis_hash = g; current_tip = t })
  with_tip d g t p tip k = record {
    genesis_array = p;
    tip = tip;
    meta = k.meta;
    heights = λ n contents found. k.heights n contents found;
    blocks = λ h contents a found. k.blocks h contents a found;
    no_snapshot = k.no_snapshot;
  }

  -- a file written, as far as lasting files go
  abbrev pub written : FilePath → Bytes → DiskStore → DiskStore
  written p contents d = record d { files = put_file d.files p (some contents) }

  pub Durable-Wrote :
      (p : FilePath) (contents : Bytes) (d : DiskStore) (r : Result (Unit {0}) × DiskStore)
      → Wrote p contents d r
      → Durable d
      → Durable (written p contents d)
      → Durable r.1
  Durable-Wrote p contents d r wrote before after = elim wrote.outcome [
    | inl (_, same) ↦
        Durable-same (written p contents d) r.1 wrote.genesis_kept wrote.tip_kept same after
    | inr (_, same) ↦ Durable-same d r.1 wrote.genesis_kept wrote.tip_kept same before
  ]

  -- a block that decodes, in its file
  pub Stored-block :
      (files : Files) (h contents : Bytes) (b : Block) (w : Option ℕ)
      → json.unmarshal_entry contents ≡ ok (b, big_int_to_string w)
      → Stored (put_file files (block_path h) (some contents)) h
  Stored-block files h contents b w is =
      (contents, b, w, put_file-same files (block_path h) (some contents), is)

  MoreStored-block :
      (files : Files) (h contents : Bytes) (b : Block) (w : Option ℕ)
      → IsArray 32 h
      → json.unmarshal_entry contents ≡ ok (b, big_int_to_string w)
      → MoreStored files (put_file files (block_path h) (some contents))
  MoreStored-block files h contents b w p is j q (old, a, v, at, was) =
      elim (Bool-cases (bytes_eq h j)) [
        | inl same ↦
            subst (Stored (put_file files (block_path h) (some contents)))
              ((bytes_eq_iff h j).0 same) (Stored-block files h contents b w is)
        | inr other ↦ (
          old,
          a,
          v,
          put_file-other files (block_path h) (block_path j) (some contents)
                (λ e. let yes = (bytes_eq_iff h j).1 (block_path-injective h j p q e) in cc)
              ∙ at,
          was,
        )
      ]

  pub MoreStored-put :
      (files : Files) (p : FilePath) (contents : Bytes)
      → ((h : Bytes) → p ≢ block_path h)
      → MoreStored files (put_file files p (some contents))
  MoreStored-put files p contents apart h a (old, b, w, at, was) =
      (old, b, w, put_file-other files p (block_path h) (some contents) (apart h) ∙ at, was)

  module _ (d : DiskStore) (contents : Bytes) (k : Durable d) where
    pub Durable-block :
        (h : Bytes) (b : Block) (w : Option ℕ)
        → IsArray 32 h
        → json.unmarshal_entry contents ≡ ok (b, big_int_to_string w)
        → Durable (written (block_path h) contents d)
    Durable-block h b w p is =
        let more = MoreStored-block d.files h contents b w p is in
        let files = put_file d.files (block_path h) (some contents) in
        let at : files meta_path ≡ d.files meta_path =
          put_file-other d.files (block_path h) meta_path (some contents)
            (block_path-meta_path h) in
        record {
          genesis_array = k.genesis_array;
          tip = IsTip-more d.files files d.current_tip more k.tip;
          meta =
              subst (MetaSays files) (sym at)
                (MetaSays-more d.files files (d.files meta_path) more k.meta);
          heights = λ n text found.
              let old =
                put_file-other d.files (block_path h) (height_path n) (some contents)
                  (block_path-height_path h n) in
              let (g, same, a, s) = k.heights n text (sym old ∙ found) in (g, same, a, more g a s);
          blocks = λ j text q found. elim (Bool-cases (bytes_eq h j)) [
            | inl same ↦
                let now = put_file-same d.files (block_path h) (some contents) in
                let there =
                  ap (λ (i : Bytes). files (block_path i)) ((bytes_eq_iff h j).0 same) ∙ found in
                (
                  b,
                  w,
                  subst (λ (x : Bytes). json.unmarshal_entry x ≡ ok (b, big_int_to_string w))
                      (some-injective (sym now ∙ there)) is,
                )
            | inr other ↦
                let old =
                  put_file-other d.files (block_path h) (block_path j) (some contents)
                    (λ e. let yes = (bytes_eq_iff h j).1 (block_path-injective h j p q e) in cc) in
                k.blocks j text q (sym old ∙ found)
          ];
          no_snapshot =
              put_file-other d.files (block_path h) legacy_path (some contents)
                (block_path-legacy_path h)
              ∙ k.no_snapshot;
        }

    pub Durable-height :
        (n : ℕ) (h : Bytes)
        → contents ≡ hex_encode h
        → IsArray 32 h
        → Stored d.files h
        → Durable (written (height_path n) contents d)
    Durable-height n h is p stored =
        let files = put_file d.files (height_path n) (some contents) in
        let more =
          MoreStored-put d.files (height_path n) contents
            (λ g e. block_path-height_path g n (sym e)) in
        let at : files meta_path ≡ d.files meta_path =
          put_file-other d.files (height_path n) meta_path (some contents)
            (height_path-meta_path n) in
        record {
          genesis_array = k.genesis_array;
          tip = IsTip-more d.files files d.current_tip more k.tip;
          meta =
              subst (MetaSays files) (sym at)
                (MetaSays-more d.files files (d.files meta_path) more k.meta);
          heights = λ m text found. elim (Bool-cases (m == n)) [
            | inl same ↦
                let now = put_file-same d.files (height_path n) (some contents) in
                let there =
                  ap (λ (i : ℕ). files (height_path i)) (sym ((==_iff m n).0 same)) ∙ found in
                let text_is : contents ≡ text = some-injective (sym now ∙ there) in
                (h, sym text_is ∙ is, p, more h p stored)
            | inr other ↦
                let old =
                  put_file-other d.files (height_path n) (height_path m) (some contents)
                    (λ e. let yes = (==_iff m n).1 (sym (height_path-injective n m e)) in cc) in
                let (g, was, a, s) = k.heights m text (sym old ∙ found) in (g, was, a, more g a s)
          ];
          blocks = λ j text q found. k.blocks j text q (
              sym (
                put_file-other d.files (height_path n) (block_path j) (some contents)
                  (λ e. block_path-height_path j n (sym e)))
              ∙ found);
          no_snapshot =
              put_file-other d.files (height_path n) legacy_path (some contents)
                (height_path-legacy_path n)
              ∙ k.no_snapshot;
        }

    pub Durable-meta :
        (g t : Bytes)
        → json.unmarshal_meta contents ≡ ok (hex_encode g, hex_encode t)
        → IsArray 32 g
        → IsTip d.files t
        → Durable (written meta_path contents d)
    Durable-meta g t is p tip =
        let files = put_file d.files meta_path (some contents) in
        let more =
          MoreStored-put d.files meta_path contents (λ h e. block_path-meta_path h (sym e)) in
        record {
          genesis_array = k.genesis_array;
          tip = IsTip-more d.files files d.current_tip more k.tip;
          meta =
              subst (MetaSays files) (sym (put_file-same d.files meta_path (some contents)))
                (g, t, is, p, IsTip-more d.files files t more tip);
          heights = λ n text found.
              let old =
                put_file-other d.files meta_path (height_path n) (some contents)
                  (λ e. height_path-meta_path n (sym e)) in
              let (h, same, a, s) = k.heights n text (sym old ∙ found) in (h, same, a, more h a s);
          blocks = λ j text q found. k.blocks j text q (
              sym (
                put_file-other d.files meta_path (block_path j) (some contents)
                  (λ e. block_path-meta_path j (sym e)))
              ∙ found);
          no_snapshot =
              put_file-other d.files meta_path legacy_path (some contents) meta_path-legacy_path
              ∙ k.no_snapshot;
        }
