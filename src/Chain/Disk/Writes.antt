-- ===== src/Chain/Disk/Writes.antt =====
-- What a write to the disk comes to: all of it or nothing, as far as lasting files go.
use colossus_x.Prelude.{
  ℕ, ◌+◌, ◌≡◌, ◌⊎◌, inl, inr, refl, ap₂, ◌∙◌, if◌then◌else◌, Option, Option-cases, none, some,
  Result, ok, err, io_error,
}
use colossus_x.Bytes.{Bytes}
use colossus_x.Chain.Disk.{
  FilePath, path_eq, Files, put_file, DiskStore, temp_path, write_file, rename, write_file_atomic,
}
use colossus_x.Chain.Disk.Paths.{IsLasting, temp_path-other, put_file-same, put_file-other}

-- the files that are not temporary
abbrev pub SameFiles : Files → Files → Type 0
SameFiles f g = (q : FilePath) → IsLasting q → f q ≡ g q

-- the store after writeFileAtomic, with its result
pub record Wrote (p : FilePath) (contents : Bytes) (d : DiskStore)
    (r : Result (Unit {0}) × DiskStore) : Type 0 where
  pub genesis_kept : r.1.genesis_hash ≡ d.genesis_hash
  pub tip_kept : r.1.current_tip ≡ d.current_tip
  pub outcome :
      ((r.0 ≡ ok tt) × SameFiles r.1.files (put_file d.files p (some contents)))
      ⊎ ((r.0 ≡ err io_error) × SameFiles r.1.files d.files)

module _ (fault : ℕ → Option (Option Bytes)) where
  temp_apart :
      (p q : FilePath) (files : Files) (v : Option Bytes)
      → IsLasting q
      → put_file files (temp_path p) v q ≡ files q
  temp_apart p q files v lasting =
      put_file-other files (temp_path p) q v (temp_path-other p q lasting)

  -- the move of a temporary file with these contents
  rename-Wrote :
      (p : FilePath) (contents : Bytes) (d e : DiskStore)
      → e.genesis_hash ≡ d.genesis_hash
      → e.current_tip ≡ d.current_tip
      → SameFiles e.files d.files
      → e.files (temp_path p) ≡ some contents
      → Wrote p contents d (rename fault (temp_path p) p e)
  unfolding rename
  rename-Wrote p contents d e g t same there = elim (Option-cases (fault e.calls)) [
    | inl fine ↦
        rw (fine, rename)
          (record {
            genesis_kept = g;
            tip_kept = t;
            outcome = inl (
              refl,
              λ q l.
                  temp_apart p q (put_file e.files p (e.files (temp_path p))) none l
                  ∙ ap₂ (λ (x y : Option Bytes). if path_eq p q then x else y) there (same q l),
            );
          })
    | inr (left, failed) ↦
        rw (failed, rename) (record { genesis_kept = g; tip_kept = t; outcome = inr (refl, same) })
  ]

  pub write_file_atomic-Wrote :
      (p : FilePath) (contents : Bytes) (d : DiskStore)
      → Wrote p contents d (write_file_atomic fault p contents d)
  unfolding write_file_atomic write_file
  write_file_atomic-Wrote p contents d = elim (Option-cases (fault d.calls)) [
    | inl fine ↦
        rw (fine, write_file_atomic, write_file)
          (rename-Wrote p contents d
            (record d {
              files = put_file d.files (temp_path p) (some contents);
              calls = d.calls + 1;
            })
            refl refl (λ q l. temp_apart p q d.files (some contents) l)
            (put_file-same d.files (temp_path p) (some contents)))
    | inr (left, failed) ↦
        rw (failed, write_file_atomic, write_file)
          (record {
            genesis_kept = refl;
            tip_kept = refl;
            outcome = inr (refl, λ q l. temp_apart p q d.files left l);
          })
  ]

  -- where no call fails, the file is written
  pub write_file_atomic-ok :
      (p : FilePath) (contents : Bytes) (d : DiskStore)
      → ((k : ℕ) → fault k ≡ none)
      → (write_file_atomic fault p contents d).0 ≡ ok tt
  unfolding write_file_atomic write_file rename
  write_file_atomic-ok p contents d fine =
      rw (fine d.calls, write_file_atomic, write_file, fine (d.calls + 1), rename) refl

pub Wrote-ok :
    (p : FilePath) (contents : Bytes) (d : DiskStore) (r : Result (Unit {0}) × DiskStore)
    → Wrote p contents d r
    → r.0 ≡ ok tt
    → SameFiles r.1.files (put_file d.files p (some contents))
Wrote-ok p contents d r wrote fine = elim wrote.outcome [
  | inl (_, same) ↦ same
  | inr (failed, _) ↦ absurd (cc)
]
