-- ===== src/Fat32/Directory/Lookup.antt =====
-- What `read_dir_entry` finds in the first cluster of a directory, and how it goes on behind it.
use kernel_team_project.Base.{
  ℕ, zero, suc, ◌+◌, ◌<◌, ◌≤◌, ◌≡◌, ◌≢◌, ◌⊎◌, inl, inr, ◌∙◌, refl, ap, true, false, some, List,
  ◌==◌, ℤ, pos, negsuc, get_or, add32, arith, Bool-cases, eq→==, ==→eq, not-==→ne, ne→not-==,
  u32_mod, is_zero,
}
use kernel_team_project.Fat32.Types.{Bytes, Fs, entry_empty, entry_deleted}
use kernel_team_project.Fat32.Memory.{memcmp, memcmp-eq, memcmp-zero}
use kernel_team_project.Fat32.Directory.{
  entry_bytes, names, matched, exhausted, scan_entries, hit, not_here, after_scan, search_sector,
  search_sectors,
}

-- An entry that is in use for the name: the eleven bytes are the formatted ones.
pub record IsNamed (formatted : List ℕ) (e : Bytes) : Type 0 where
  pub used : e 0 ≢ entry_empty
  pub kept : e 0 ≢ entry_deleted
  pub same : (i : ℕ) → i < 11 → get_or formatted i 0 ≡ e i

-- An entry that a search for the name passes over: deleted, or of another name.
pub record IsPassed (formatted : List ℕ) (e : Bytes) : Type 0 where
  pub used : e 0 ≢ entry_empty
  pub other : (e 0 ≡ entry_deleted) ⊎ ((i : ℕ) × (i < 11) × (get_or formatted i 0 ≢ e i))

names-IsNamed : (formatted : List ℕ) (e : Bytes) → IsNamed formatted e → names formatted e ≡ true
names-IsNamed formatted e named = rw (memcmp-eq 11 (λ i. get_or formatted i 0) e named.same) refl

is_zero-pos : (z : ℤ) → is_zero z ≡ true → z ≡ pos 0
is_zero-pos (pos n) h = ground arith
is_zero-pos (negsuc n) h = ground arith

names-differ :
    (formatted : List ℕ) (e : Bytes) (i : ℕ)
    → i < 11
    → get_or formatted i 0 ≢ e i
    → names formatted e ≡ false
names-differ formatted e i h differ = elim (Bool-cases (names formatted e)) [
  | inl same ↦ absurd (
      differ (
        memcmp-zero 11 (λ j. get_or formatted j 0) e
          (is_zero-pos (memcmp (λ j. get_or formatted j 0) e 11) same) i h))
  | inr other ↦ other
]

module _ (formatted : List ℕ) (buffer : Bytes) where
  scan-passed :
      (rounds entry : ℕ)
      → IsPassed formatted (entry_bytes buffer entry)
      → scan_entries formatted buffer (suc rounds) entry
        ≡ scan_entries formatted buffer rounds (entry + 1)
  unfolding scan_entries
  scan-passed rounds entry p = elim p.other [
    | inl deleted ↦
        rw
          (
            ne→not-== (entry_bytes buffer entry 0) entry_empty p.used,
            eq→== (entry_bytes buffer entry 0) entry_deleted deleted,
          )
          refl
    | inr (i, h, differ) ↦
        rw
          (
            ne→not-== (entry_bytes buffer entry 0) entry_empty p.used,
            names-differ formatted (entry_bytes buffer entry) i h differ,
          )
          (ground arith)
  ]

  scan-matched :
      (rounds entry n : ℕ)
      → entry ≤ n
      → n < entry + rounds
      → ((m : ℕ) → m < n → IsPassed formatted (entry_bytes buffer m))
      → IsNamed formatted (entry_bytes buffer n)
      → scan_entries formatted buffer rounds entry ≡ matched (entry_bytes buffer n)
  unfolding scan_entries
  scan-matched zero entry n low high passed named = absurd (omega arith)
  scan-matched (suc rounds) entry n low high passed named = elim (Bool-cases (entry == n)) [
    | inl here ↦
        let e : entry ≡ n = ==→eq entry n here in
        rw (
          e,
          ne→not-== (entry_bytes buffer n 0) entry_empty named.used,
          ne→not-== (entry_bytes buffer n 0) entry_deleted named.kept,
          names-IsNamed formatted (entry_bytes buffer n) named,
        )
    | inr later ↦
        let ne = not-==→ne entry n later in
        scan-passed rounds entry (passed entry (omega arith))
        ∙ scan-matched rounds (entry + 1) n (omega arith) (omega arith) passed named
  ]

  scan-exhausted :
      (rounds entry : ℕ)
      → ((m : ℕ) → m < entry + rounds → IsPassed formatted (entry_bytes buffer m))
      → scan_entries formatted buffer rounds entry ≡ exhausted
  unfolding scan_entries
  scan-exhausted zero entry passed = refl
  scan-exhausted (suc rounds) entry passed =
      scan-passed rounds entry (passed entry (omega arith))
      ∙ scan-exhausted rounds (entry + 1) (λ m h. passed m (omega arith))

module _ (fs : Fs) (formatted : List ℕ) (target : ℕ) (sector : ℕ → Bytes)
    (fits : target + fs.sectors_per_cluster < u32_mod) where
  -- The first `count` sectors of a cluster.
  abbrev pub AreRead : ℕ → Type 0
  AreRead count = (j : ℕ) → j < count → fs.disk (target + j) ≡ some (sector j)

  -- The search passes over every entry of the first `count` sectors.
  abbrev pub ArePassed : ℕ → Type 0
  ArePassed count = (j m : ℕ) → j < count → m < 16 → IsPassed formatted (entry_bytes (sector j) m)

  read_at :
      (j count : ℕ)
      → j < count
      → count ≤ fs.sectors_per_cluster
      → AreRead count
      → fs.disk (add32 target j) ≡ some (sector j)
  read_at j count h bound read =
      ap fs.disk (let e : add32 target j ≡ target + j = omega arith in e) ∙ read j h

  sectors-passed :
      (rounds j : ℕ)
      → j < fs.sectors_per_cluster
      → AreRead (suc j)
      → ArePassed (suc j)
      → search_sectors fs formatted target (suc rounds) j
        ≡ search_sectors fs formatted target rounds (j + 1)
  unfolding search_sectors search_sector after_scan
  sectors-passed rounds j h read passed = rw (
    read_at j (suc j) (omega arith) h read,
    scan-exhausted formatted (sector j) 16 0 (λ m hm. passed j m (omega arith) hm),
  )

  pub sectors-hit :
      (rounds j s n : ℕ)
      → j ≤ s
      → s < j + rounds
      → s < fs.sectors_per_cluster
      → n < 16
      → AreRead (suc s)
      → ArePassed s
      → ((m : ℕ) → m < n → IsPassed formatted (entry_bytes (sector s) m))
      → IsNamed formatted (entry_bytes (sector s) n)
      → search_sectors fs formatted target rounds j ≡ hit (entry_bytes (sector s) n)
  unfolding search_sectors search_sector after_scan
  sectors-hit zero j s n low high h hn read passed before named = absurd (omega arith)
  sectors-hit (suc rounds) j s n low high h hn read passed before named =
      elim (Bool-cases (j == s)) [
        | inl here ↦
            let e : j ≡ s = ==→eq j s here in
            rw (
              e,
              read_at s (suc s) (omega arith) h read,
              scan-matched formatted (sector s) 16 0 n (omega arith) hn before named,
            )
        | inr later ↦
            let ne = not-==→ne j s later in
            sectors-passed rounds j (omega arith) (λ i hi. read i (omega arith))
              (λ i m hi hm. passed i m (omega arith) hm)
            ∙ sectors-hit rounds (j + 1) s n (omega arith) (omega arith) h hn read passed before
                named
      ]

  pub sectors-exhausted :
      (rounds j : ℕ)
      → j + rounds ≡ fs.sectors_per_cluster
      → AreRead fs.sectors_per_cluster
      → ArePassed fs.sectors_per_cluster
      → search_sectors fs formatted target rounds j ≡ not_here
  unfolding search_sectors
  sectors-exhausted zero j e read passed = refl
  sectors-exhausted (suc rounds) j e read passed =
      sectors-passed rounds j (omega arith) (λ i hi. read i (omega arith))
        (λ i m hi hm. passed i m (omega arith) hm)
      ∙ sectors-exhausted rounds (j + 1) (omega arith) read passed
