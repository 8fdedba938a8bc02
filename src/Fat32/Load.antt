-- ===== src/Fat32/Load.antt =====
-- The boot loader's use of os/fs/fat32.c: a file is opened by its path, and then read.
use kernel_team_project.Base.{ℕ, suc, ◌-◌, ◌≡◌, ◌≢◌, some, min, bit_and, arith, ap}
use mathlib.Core.Path.{subst}
use kernel_team_project.Fat32.Types.{Bytes, Fs, File, done, fat32_magic, attr_directory, success}
use kernel_team_project.Fat32.Strings.{Text}
use kernel_team_project.Fat32.Path.{parse_fat32_path}
use kernel_team_project.Fat32.Directory.Entries.{described}
use kernel_team_project.Fat32.Open.{fat32_open}
use kernel_team_project.Fat32.Open.Walk.{Leads, opened_file, fat32_open_file}
use kernel_team_project.Fat32.Read.Rounds.{IsStored}
use kernel_team_project.Fat32.Read.Whole.{Reads, fat32_read_lem}

-- Where a path leads to a file, each name in the first cluster of its directory, and the clusters from
-- the start that the bytes of its entry say are on the disk, opening it succeeds, and the first read
-- returns the bytes of the file from its start on: as many as were asked for, or all of the size in the
-- entry.
pub open-read :
    (fuel : ℕ) (fs : Fs) (file : File) (path : Text) {parent : ℕ} {target : Text} {e : Bytes}
    (size : ℕ) (chain first : ℕ → ℕ) (sector : ℕ → ℕ → Bytes)
    → fs.magic ≡ fat32_magic
    → Leads fs fs.root_cluster (parse_fat32_path path) parent target e
    → bit_and (described e).attributes attr_directory ≢ attr_directory
    → IsStored fs (described e).start_cluster (described e).file_size chain first sector
    → (opened : File) × (fat32_open (suc fuel) (some fs) (some path) (some file)
        ≡ done (success, some opened))
      × Reads opened size sector (min size (described e).file_size)
open-read fuel fs file path {parent = parent} {target = target} {e = e} size chain first sector
      mounted leads plain stored =
    let opened = opened_file fs file parent target e in
    (
      opened,
      fat32_open_file fuel fs file path mounted leads plain,
      subst (Reads opened size sector)
          (ap (min size)
            (let z : (described e).file_size - 0 ≡ (described e).file_size = omega arith in z))
          (fat32_read_lem opened size chain first sector stored),
    )
