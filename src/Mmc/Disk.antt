-- ===== src/Mmc/Disk.antt =====
-- The disk that the file system of os/fs/fat32.c reads, by `mmc_read_sector` of boot/mmc.c on a card. The
-- boot loader passes that function to `fat32_mount` as `read_sector`.
use kernel_team_project.Base.{
  ℕ, ◌<◌, ◌≡◌, ◌≢◌, ◌∙◌, refl, Option, none, some, List, [], ◌∷◌, lt→ltb, ℤ, pos,
}
use kernel_team_project.Regs.{Bus, Io, Machine, pure, ◌>>=◌, run-bind}
use kernel_team_project.Fat32.Types.{Bytes, Disk}
use kernel_team_project.Mmc.{Words}
use kernel_team_project.Mmc.Card.{Card, idle}
use kernel_team_project.Mmc.Sector.{mmc_read_sector}
use kernel_team_project.Mmc.Transfer.{mmc_read_sector_lem}

-- The card as the file system sees it: every sector can be read.
abbrev pub disk_of : (sectors : ℕ → ℕ → ℕ) → Disk
disk_of sectors s = some (sectors s)

-- The result and the buffer of a read are what a disk says: 0 and its 512 bytes, or an error.
abbrev pub Answers : Option Bytes → ℤ × Words → Type 0
Answers none (r, buffer) = r ≢ pos 0
Answers (some bytes) (r, buffer) = (r ≡ pos 0) × ((k : ℕ) → k < 512 → buffer k ≡ bytes k)

-- The same of the reads of some sectors, one after another.
pub data AllAnswer (disk : Disk) : List ℕ → List (ℤ × Words) → Type 0 where
  no_reads : AllAnswer disk [] []
  one_read :
      {s : ℕ} {ss : List ℕ} {r : ℤ × Words} {rs : List (ℤ × Words)}
      → Answers (disk s) r
      → AllAnswer disk ss rs
      → AllAnswer disk (s ∷ ss) (r ∷ rs)

module _ {D : Type 0} (bus : Bus D) (fuel : ℕ) where
  -- One read after another, each into the same buffer.
  unfoldable pub read_all : List ℕ → Words → Io D (List (ℤ × Words))
  read_all [] buffer = pure []
  read_all (s ∷ ss) buffer = do
    r ← mmc_read_sector bus fuel s buffer
    rs ← read_all ss r.1
    pure (r ∷ rs)

module _ {D : Type 0} (bus : Bus D) (sectors : ℕ → ℕ → ℕ) (card : Card bus sectors)
    (small : (s k : ℕ) → sectors s k < 256) where
  open card use {In, busy, fetch}

  -- On a card that is idle, and that answers within the fuel and the timeout, the reads of any sectors in
  -- any order return, all of them say what the disk of the file system says, and the card is idle
  -- again.
  pub read_all_lem :
      (fuel : ℕ) (ss : List ℕ) (buffer : Words) (m : Machine D)
      → busy < fuel
      → fetch < 1_000_000
      → In idle m.dev
      → (rs : List (ℤ × Words)) × (d : D) × In idle d
        × (read_all bus fuel ss buffer m ≡ some (rs, record m { dev = d }))
        × AllAnswer (disk_of sectors) ss rs
  unfolding read_all
  read_all_lem fuel [] buffer m lt soon h = ([], m.dev, h, refl, no_reads)
  read_all_lem fuel (s ∷ ss) buffer m lt soon h =
      let (result, d, still, e, holds) =
        mmc_read_sector_lem bus sectors card s (small s) fuel buffer m lt soon h in
      let (rs, d', still', e', all) =
        read_all_lem fuel ss result (record m { dev = d }) lt soon still in
      (
        (pos 0, result) ∷ rs,
        d',
        still',
        run-bind (mmc_read_sector bus fuel s buffer)
              (λ r. read_all bus fuel ss r.1 >>= λ rs. pure (r ∷ rs)) e
            ∙ run-bind (read_all bus fuel ss result) (λ rs. pure ((pos 0, result) ∷ rs)) e',
        one_read (refl, λ k k_lt. let below = lt→ltb _ _ k_lt in holds k ∙ rw below) all,
      )
