-- ===== src/Fat32/Label.antt =====
-- `fat32_readlabel` of os/fs/fat32.c: the search of the root directory for the label of the volume.
use mathlib.Core.Path.{subst}
use kernel_team_project.Base.{
  ℕ, zero, suc, ◌+◌, ◌-◌, ◌/◌, ◌<◌, ◌≡◌, ◌≢◌, ap, ap₂, ◌∙◌, Bool-cases, ◌⊎◌, inl, inr, true, false,
  Option, none, some, List, [], ◌∷◌, ◌++◌, ◌==◌, ◌!=◌, if◌then◌else◌, ℤ, negsuc, to_u32, add32,
  bit_and, eq→==, ne→not-==, arith,
}
use kernel_team_project.Fat32.Types.{
  Bytes, Fs, Run, done, fault, out_of_fuel, eoc_marker, entry_empty, entry_deleted, error_io,
  success,
}
use kernel_team_project.Fat32.Chain.{read_fat_entry}
use kernel_team_project.Fat32.Directory.{
  entry_size, entry_bytes, Scan, matched, ended, exhausted, Search, hit, stop, not_here,
  sector_target, after_search,
}

abbrev pub error_no_label : ℤ
error_no_label = negsuc 11

-- FAT32_ATTR_VOLLABEL
abbrev pub attr_vollabel : ℕ
attr_vollabel = 0x08

-- The loop over the entries of a sector, from `entry` on.
unfoldable pub scan_label : Bytes → (rounds entry : ℕ) → Scan
scan_label buffer zero entry = exhausted
scan_label buffer (suc rounds) entry =
    let rest = scan_label buffer rounds (entry + 1) in
    let e = entry_bytes buffer entry in
    if e 0 == entry_empty
    then ended
    else if e 0 == entry_deleted
    then rest
    else if bit_and (e 11) attr_vollabel != 0
    then matched e
    else rest

-- What follows from the scan of a sector; `next` is the loop behind it.
unfoldable pub after_label : Scan → (next : Search) → Search
after_label (matched e) next = hit e
after_label ended next = stop error_no_label
after_label exhausted next = next

-- One round of the loop over the sectors, once the sector has been read or not.
unfoldable pub label_sector : Option Bytes → (next : Search) → Search
label_sector none next = stop error_io
label_sector (some buffer) next = after_label (scan_label buffer (512 / entry_size) 0) next

-- The loop over the sectors of a cluster, from `sector` on.
unfoldable pub label_sectors : Fs → (sector_target rounds sector : ℕ) → Search
label_sectors fs sector_target zero sector = not_here
label_sectors fs sector_target (suc rounds) sector =
    label_sector (fs.disk (add32 sector_target sector))
      (label_sectors fs sector_target rounds (sector + 1))

-- The loop over the clusters. The source has no bound for it.
unfoldable pub label_clusters : Fs → (fuel cluster : ℕ) → Run Search
label_clusters fs zero cluster = out_of_fuel
label_clusters fs (suc fuel) cluster =
    let next_cluster = read_fat_entry fs cluster in
    let rounds =
      after_search next_cluster (label_clusters fs fuel (to_u32 next_cluster))
        (label_sectors fs (sector_target fs cluster) fs.sectors_per_cluster 0) in
    if cluster == eoc_marker then done (stop error_no_label) else rounds

-- `memcpy(label_out, filename, 11)`, from the byte `i` on.
abbrev pub name_bytes : (rounds i : ℕ) → Bytes → List ℕ
name_bytes zero i e = []
name_bytes (suc rounds) i e = e i ∷ name_bytes rounds (i + 1) e

-- The result, and what is written to `label_out`.
unfoldable pub labelled : Run Search → Run (ℤ × List ℕ)
labelled (done (hit e)) = done (success, name_bytes 11 0 e ++ 0 ∷ [])
labelled (done (stop result)) = done (result, [])
labelled (done not_here) = done (error_no_label, [])
labelled fault = fault
labelled out_of_fuel = out_of_fuel

unfoldable pub fat32_readlabel : (fuel : ℕ) → Fs → Run (ℤ × List ℕ)
fat32_readlabel fuel fs = labelled (label_clusters fs fuel fs.root_cluster)

-- An entry that the search goes over: a deleted one, or one without the bit of a label.
pub record IsPassed (e : Bytes) : Type 0 where
  pub used : e 0 ≢ entry_empty
  pub other : (e 0 ≡ entry_deleted) ⊎ (bit_and (e 11) attr_vollabel ≡ 0)

passed_step :
    (buffer : Bytes) (rounds entry : ℕ)
    → IsPassed (entry_bytes buffer entry)
    → scan_label buffer (suc rounds) entry ≡ scan_label buffer rounds (entry + 1)
unfolding scan_label
passed_step buffer rounds entry p = elim p.other [
  | inl deleted ↦ rw (ne→not-== _ _ p.used, eq→== _ _ deleted)
  | inr plain ↦
      let no_label : (bit_and (entry_bytes buffer entry 11) attr_vollabel != 0) ≡ false =
        ground arith in
      elim (Bool-cases (entry_bytes buffer entry 0 == entry_deleted)) [
        | inl deleted ↦ rw (ne→not-== _ _ p.used, deleted)
        | inr live ↦ rw (ne→not-== _ _ p.used, live, no_label)
      ]
]

scan_label_found :
    (buffer : Bytes) (before rounds entry : ℕ)
    → ((j : ℕ) → j < before → IsPassed (entry_bytes buffer (entry + j)))
    → scan_label buffer (before + rounds) entry ≡ scan_label buffer rounds (entry + before)
scan_label_found buffer zero rounds entry passed =
    let r : 0 + rounds ≡ rounds = omega arith in
    let e : entry ≡ entry + 0 = omega arith in ap₂ (scan_label buffer) r e
scan_label_found buffer (suc before) rounds entry passed =
    let here : entry + 0 ≡ entry = omega arith in
    let first : IsPassed (entry_bytes buffer entry) =
      subst (λ k. IsPassed (entry_bytes buffer k)) here (passed 0 (omega arith)) in
    let r : suc before + rounds ≡ suc (before + rounds) = omega arith in
    let e : entry + 1 + before ≡ entry + suc before = omega arith in
    ap (λ r. scan_label buffer r entry) r
    ∙ passed_step buffer (before + rounds) entry first
    ∙ scan_label_found buffer before rounds (entry + 1) (λ j h.
      let next : entry + suc j ≡ entry + 1 + j = omega arith in
      subst (λ k. IsPassed (entry_bytes buffer k)) next (passed (suc j) (omega arith)))
    ∙ ap (scan_label buffer rounds) e

module _ (fs : Fs) (sector : Bytes) (n : ℕ) where
  -- The first sector of the root directory starts with `n` entries that the search goes over.
  pub record Starts : Type 0 where
    pub is_data : fs.root_cluster ≢ eoc_marker
    pub some_sector : 0 < fs.sectors_per_cluster
    pub read : fs.disk (add32 (sector_target fs fs.root_cluster) 0) ≡ some sector
    pub few : n < 16
    pub passed : (j : ℕ) → j < n → IsPassed (entry_bytes sector j)

  first_sector :
      (target rounds : ℕ)
      → 0 < rounds
      → label_sectors fs target rounds 0
        ≡ label_sector (fs.disk (add32 target 0)) (label_sectors fs target (rounds - 1) 1)
  unfolding label_sectors
  first_sector target zero h = absurd (omega arith)
  first_sector target (suc rounds) h =
      let e : rounds ≡ suc rounds - 1 = omega arith in
      ap (λ r. label_sector (fs.disk (add32 target 0)) (label_sectors fs target r 1)) e

  module _ (starts : Starts) where
    open starts use {is_data, some_sector, read, few, passed}

    reaches : scan_label sector 16 0 ≡ scan_label sector (suc (15 - n)) n
    reaches =
        let r : 16 ≡ n + suc (15 - n) = omega arith in
        let e : 0 + n ≡ n = omega arith in
        ap (λ r. scan_label sector r 0) r
        ∙ scan_label_found sector n (suc (15 - n)) 0 (λ j h.
          let same : j ≡ 0 + j = omega arith in
          subst (λ k. IsPassed (entry_bytes sector k)) same (passed j h))
        ∙ ap (scan_label sector (suc (15 - n))) e

    -- Where the entry behind them is in use and has the bit of a label, its name is the label.
    pub readlabel_found :
        (fuel : ℕ)
        → entry_bytes sector n 0 ≢ entry_empty
        → entry_bytes sector n 0 ≢ entry_deleted
        → bit_and (entry_bytes sector n 11) attr_vollabel ≢ 0
        → fat32_readlabel (suc fuel) fs
          ≡ done (success, name_bytes 11 0 (entry_bytes sector n) ++ 0 ∷ [])
    unfolding fat32_readlabel label_clusters label_sector labelled after_label after_search
        scan_label
    readlabel_found fuel used live bit =
        let has_bit : (bit_and (entry_bytes sector n 11) attr_vollabel != 0) ≡ true =
          ground arith in
        rw (
          ne→not-== _ _ is_data,
          first_sector (sector_target fs fs.root_cluster) fs.sectors_per_cluster some_sector,
          read,
          reaches,
          ne→not-== _ _ used,
          ne→not-== _ _ live,
          has_bit,
        )

    -- Where the directory ends there, the volume has no label.
    pub readlabel_none :
        (fuel : ℕ)
        → entry_bytes sector n 0 ≡ entry_empty
        → fat32_readlabel (suc fuel) fs ≡ done (error_no_label, [])
    unfolding fat32_readlabel label_clusters label_sector labelled after_label after_search
        scan_label
    readlabel_none fuel empty = rw (
      ne→not-== _ _ is_data,
      first_sector (sector_target fs fs.root_cluster) fs.sectors_per_cluster some_sector,
      read,
      reaches,
      eq→== _ _ empty,
    )
