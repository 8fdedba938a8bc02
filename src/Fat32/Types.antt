-- ===== src/Fat32/Types.antt =====
-- The constants and structures of os/fs/fat32.h. A disk is the function that `read_sector` computes:
-- the 512 bytes of a sector, or `none` where it returns a number other than 0.
use kernel_team_project.Base.{ℕ, Bool, Option, List, ℤ, pos, negsuc, ◌≡◌, refl}

-- The error codes; `negsuc n` is -(n + 1).
abbrev pub error_io : ℤ
error_io = negsuc 0

abbrev pub error_invalid_boot_sector : ℤ
error_invalid_boot_sector = negsuc 1

abbrev pub error_no_file : ℤ
error_no_file = negsuc 2

abbrev pub error_bad_parameter : ℤ
error_bad_parameter = negsuc 3

abbrev pub error_corrupted_fs : ℤ
error_corrupted_fs = negsuc 4

abbrev pub error_no_path : ℤ
error_no_path = negsuc 7

abbrev pub error_is_dir : ℤ
error_is_dir = negsuc 8

abbrev pub error_no_label : ℤ
error_no_label = negsuc 11

abbrev pub error_invalid_cluster : ℤ
error_invalid_cluster = negsuc 12

abbrev pub success : ℤ
success = pos 0

abbrev pub fat32_magic : ℕ
fat32_magic = 0xF32F32F3

abbrev pub sector_size : ℕ
sector_size = 512

-- MBR_SIGNATURE and FAT32_BOOT_SECTOR_SIGNATURE
abbrev pub boot_signature : ℕ
boot_signature = 0xAA55

abbrev pub max_components : ℕ
max_components = 16

abbrev pub max_component_length : ℕ
max_component_length = 64

abbrev pub part_type_1 : ℕ
part_type_1 = 0x0B

abbrev pub part_type_2 : ℕ
part_type_2 = 0x0C

abbrev pub attr_directory : ℕ
attr_directory = 0x10

abbrev pub attr_vollabel : ℕ
attr_vollabel = 0x08

abbrev pub eoc_marker : ℕ
eoc_marker = 0x0FFFFFFF

abbrev pub last_marker : ℕ
last_marker = 0x0FFFFFF8

abbrev pub entry_empty : ℕ
entry_empty = 0x00

abbrev pub entry_deleted : ℕ
entry_deleted = 0xE5

-- Bytes by their offset.
abbrev pub Bytes : Type 0
Bytes = ℕ → ℕ

abbrev pub Disk : Type 0
Disk = ℕ → Option Bytes

-- `fat32_fs_t`
pub record Fs : Type 0 where
  pub disk : Disk
  pub bytes_per_sector : ℕ
  pub sectors_per_cluster : ℕ
  pub reserved_sector_count : ℕ
  pub num_fats : ℕ
  pub sectors_per_fat : ℕ
  pub root_cluster : ℕ
  pub cluster_size : ℕ
  pub total_clusters : ℕ
  pub total_sectors : ℕ
  pub fsinfo_sector : ℕ
  pub first_data_sector : ℕ
  pub fat_start_sector : ℕ
  pub magic : ℕ

-- `fat32_file_t`
pub record File : Type 0 where
  pub fs : Fs
  pub formatted_name : List ℕ
  pub start_cluster : ℕ
  pub current_cluster : ℕ
  pub current_cluster_index : ℕ
  pub file_size : ℕ
  pub file_offset : ℕ
  pub parent_dir_cluster : ℕ

-- The fields of `fat32_dir_entry_t` that the driver uses.
pub record DirEntry : Type 0 where
  pub attributes : ℕ
  pub file_size : ℕ
  pub start_cluster : ℕ
  pub is_initialized : Bool

-- The end of a run: a result, a fault (an access outside an array, a division by zero), or the
-- fuel of a loop that the source does not bound.
pub data Run {ℓ} (A : Type ℓ) : Type ℓ where
  done : A → Run A
  fault : Run A
  out_of_fuel : Run A

infixl 5 ◌>>=◌
abbrev pub ◌>>=◌ {ℓ κ} : {A : Type ℓ} {B : Type κ} → Run A → (A → Run B) → Run B
done a >>= f = f a
fault >>= f = fault
out_of_fuel >>= f = out_of_fuel

pub bind_assoc {ℓ κ μ} :
    {A : Type ℓ} {B : Type κ} {C : Type μ} (m : Run A) (f : A → Run B) (g : B → Run C)
    → ((m >>= f) >>= g) ≡ (m >>= λ a. f a >>= g)
bind_assoc (done a) f g = refl
bind_assoc fault f g = refl
bind_assoc out_of_fuel f g = refl
