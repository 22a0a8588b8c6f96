-- ===== src/Chain/Disk/Simulates.antt =====
-- Runs of a disk store on which no call fails, next to runs of a memory store.
use colossus_x.Prelude.{
  ℕ, ◌≡◌, inl, inr, refl, sym, ap₂, ◌∙◌, Option, none, some, List, [], ◌∷◌, Result, ok,
}
use colossus_x.Bytes.{Bytes, zero_hash-IsArray}
use colossus_x.Crypto.{Crypto, HasSizes}
use colossus_x.Chain.Memory.{MemoryStore, new_memory_store, store_block, set_current_tip}
use colossus_x.Chain.Disk.{Json, DiskStore, disk_store_block, disk_set_current_tip}
use colossus_x.Chain.Disk.Opening.{Snapshot, load, migrate_legacy_snapshot}
use colossus_x.Chain.Disk.Recovery.{MetaDecodes}
use colossus_x.Chain.Disk.Reopen.{Change, add_block, move_tip, disk_run, Decodable}
use colossus_x.Chain.Disk.Crash.{empty_store, found_store, load_meta-says}
use colossus_x.Chain.Disk.Refines.{Held, Held-files, Views, set_current_tip-Views}
use colossus_x.Chain.Disk.StoreBlock.{store_block-Views}
use colossus_x.Chain.Disk.Answers.{SameAnswers, Held-SameAnswers}

-- every block comes with its total work, which a memory store needs
abbrev pub HaveWork : List Change → Type 0
HaveWork [] = Unit
HaveWork (add_block block none ∷ r) = ⊥
HaveWork (add_block block (some work) ∷ r) = HaveWork r
HaveWork (move_tip hash ∷ r) = HaveWork r

module _ (c : Crypto) where
  abbrev pub memory_change : Change → MemoryStore → Result (Unit {0}) × MemoryStore
  memory_change (add_block block none) m = (ok tt, m)
  memory_change (add_block block (some work)) m = (ok tt, store_block c m block work)
  memory_change (move_tip hash) m = set_current_tip m hash

  -- the memory store after the changes, and their results
  unfoldable pub memory_run : List Change → MemoryStore → MemoryStore
  memory_run [] m = m
  memory_run (a ∷ r) m = memory_run r (memory_change a m).1

  unfoldable pub memory_results : List Change → MemoryStore → List (Result (Unit {0}))
  memory_results [] m = []
  memory_results (a ∷ r) m = (memory_change a m).0 ∷ memory_results r (memory_change a m).1

  abbrev pub disk_change :
      (ℕ → Option (Option Bytes)) → Json → Change → DiskStore → Result (Unit {0}) × DiskStore
  disk_change fault json (add_block block work) d = disk_store_block fault c json block work d
  disk_change fault json (move_tip hash) d = disk_set_current_tip fault json hash d

  unfoldable pub disk_results :
      (ℕ → Option (Option Bytes)) → Json → List Change → DiskStore → List (Result (Unit {0}))
  disk_results fault json [] d = []
  disk_results fault json (a ∷ r) d =
      (disk_change fault json a d).0 ∷ disk_results fault json r (disk_change fault json a d).1

new_memory_store-Held :
    (json : Json) (calls : ℕ) → Held json (found_store (λ _. none) calls) new_memory_store
new_memory_store-Held json calls = record {
  genesis = refl;
  tip = refl;
  genesis_array = zero_hash-IsArray;
  tip_array = zero_hash-IsArray;
  tip_known = inl refl;
  same_blocks = λ h p. inl (refl, refl, refl);
  same_heights = λ n. inl (refl, refl);
  no_snapshot = refl;
}

module _ (c : Crypto) (sizes : HasSizes c) (json : Json) (metas : MetaDecodes json) where
  run-Views :
      (fault : ℕ → Option (Option Bytes))
      → ((k : ℕ) → fault k ≡ none)
      → (changes : List Change) (d : DiskStore) (m : MemoryStore) → HaveWork changes
      → Decodable c json changes
      → Views json d m
      → (disk_results c fault json changes d ≡ memory_results c changes m)
        × Views json (disk_run c json fault changes d) (memory_run c changes m)
  unfolding disk_results memory_results disk_run memory_run
  run-Views fault fine [] d m work fits v = (refl, v)
  run-Views fault fine (add_block block none ∷ r) d m work fits v = elim work [ ]
  run-Views fault fine (add_block block (some w) ∷ r) d m work fits v =
      let (good, views) =
        store_block-Views c sizes json fault metas fine block w d m fits.0 v.held in
      let (rest, last) = run-Views fault fine r _ _ work fits.1 views in
      (ap₂ (λ x y. x ∷ y) good rest, last)
  run-Views fault fine (move_tip hash ∷ r) d m work fits v =
      let (good, views) = set_current_tip-Views json metas fault fine hash d m fits.0 v in
      let (rest, last) = run-Views fault fine r _ _ work fits.1 views in
      (ap₂ (λ x y. x ∷ y) good rest, last)

  -- a store opened from the files holds the same
  load-Held :
      (later : ℕ → Option (Option Bytes)) (decode : Bytes → Result Snapshot) (calls : ℕ)
      (d : DiskStore) (m : MemoryStore)
      → Views json d m
      → ((load later json decode (found_store d.files calls)).0 ≡ ok tt)
        × Held json (load later json decode (found_store d.files calls)).1 m
  unfolding load migrate_legacy_snapshot
  load-Held later decode calls d m v = elim v.meta [
    | inl (missing, g, t) ↦
        rw (missing, load, v.held.no_snapshot, migrate_legacy_snapshot)
          (
            refl,
            Held-files json d (found_store d.files calls) m (sym (v.held.genesis ∙ g))
                (sym (v.held.tip ∙ t)) (λ h. refl) (λ n. refl) refl v.held,
          )
    | inr (contents, found, says) ↦
        rw
          (
            found,
            load,
            load_meta-says json later decode (found_store d.files calls) contents m.genesis_hash
                m.tip says v.held.genesis_array v.held.tip_array,
          )
          (
            refl,
            Held-files json d
                (record {
                  genesis_hash = m.genesis_hash;
                  current_tip = m.tip;
                  files = d.files;
                  calls = calls;
                })
                m (sym v.held.genesis) (sym v.held.tip) (λ h. refl) (λ n. refl) refl v.held,
          )
  ]

  -- On a disk on which no call fails, a run of StoreBlock and SetCurrentTip on a DiskStore, in a
  -- directory that was empty, returns what it returns on a MemoryStore, and the store then answers
  -- every question as the MemoryStore does; so does the store that is opened from the files
  -- afterwards. The blocks come with their total work, hashes have 32 bytes, and JSON decodes what it
  -- encoded.
  pub disk_run-SameAnswers :
      (fault later : ℕ → Option (Option Bytes)) (decode : Bytes → Result Snapshot)
      (changes : List Change) (calls : ℕ)
      → ((k : ℕ) → fault k ≡ none)
      → HaveWork changes
      → Decodable c json changes
      → let d = disk_run c json fault changes empty_store in
        let m = memory_run c changes new_memory_store in
        let opened = load later json decode (found_store d.files calls) in
        (disk_results c fault json changes empty_store ≡ memory_results c changes new_memory_store)
        × SameAnswers json d m
        × (opened.0 ≡ ok tt)
        × SameAnswers json opened.1 m
  disk_run-SameAnswers fault later decode changes calls fine work fits =
      let d = disk_run c json fault changes empty_store in
      let m = memory_run c changes new_memory_store in
      let (results, views) =
        run-Views fault fine changes empty_store new_memory_store work fits
          (record { held = new_memory_store-Held json 0; meta = inl (refl, refl, refl) }) in
      let (good, held) = load-Held later decode calls d m views in
      (results, Held-SameAnswers json d m views.held, good, Held-SameAnswers json _ m held)
