-- ===== src/Fat32/Open.antt =====
-- `fat32_open` of os/fs/fat32.c: the walk along the components of a path. The code passes one
-- `fat32_dir_entry_t` from component to component.
pub mod Walk
mod Tests
use kernel_team_project.Base.{
  ℕ, Bool, true, false, Option, none, some, List, [], ◌∷◌, ◌==◌, if◌then◌else◌, ℤ, is_zero, bit_and,
}
use kernel_team_project.Fat32.Types.{
  Fs, File, DirEntry, Run, done, fault, ◌>>=◌, fat32_magic, attr_directory, error_bad_parameter,
  error_no_path, error_no_file, error_is_dir, success,
}
use kernel_team_project.Fat32.Strings.{Text}
use kernel_team_project.Fat32.Name.{format_name_to_fat32}
use kernel_team_project.Fat32.Path.{parse_fat32_path}
use kernel_team_project.Fat32.Directory.{read_dir_entry}

-- How the loop over the directories of a path ends: the directory entry and `parent_cluster` in
-- front of the last component, or the result that is returned.
pub data Parent : Type 0 where
  reached : Option DirEntry → (parent_cluster : ℕ) → (target_name : Text) → Parent
  failed : ℤ → Parent

abbrev pub dir_start : Option DirEntry → ℕ → ℕ
dir_start none cluster = cluster
dir_start (some d) cluster = d.start_cluster

-- The loop over all components but the last. A path without components makes the code read the
-- component at index -1.
unfoldable pub walk :
    (fuel : ℕ) → Fs → List Text → Option DirEntry → (parent_cluster : ℕ) → Run Parent
walk fuel fs [] dir parent_cluster = fault
walk fuel fs (name ∷ []) dir parent_cluster = done (reached dir parent_cluster name)
walk fuel fs (name ∷ next ∷ names) dir parent_cluster = do
  (result, dir') ← read_dir_entry fuel (some fs) dir (some name)
  elim (is_zero result) [
    | false ↦ done (failed error_no_path)
    | true ↦ walk fuel fs (next ∷ names) dir' (dir_start dir' parent_cluster)
  ]

-- The entry of the target: the result, and the file afterwards.
unfoldable pub open_entry :
    Fs → File → (parent_cluster : ℕ) → (target_name : Text) → Option DirEntry → ℤ × File
open_entry fs file parent_cluster target_name none = (error_no_file, file)
open_entry fs file parent_cluster target_name (some d) =
    if bit_and d.attributes attr_directory == attr_directory then (error_is_dir, file) else (
      success,
      record file {
        fs = fs;
        start_cluster = d.start_cluster;
        current_cluster = d.start_cluster;
        file_size = d.file_size;
        parent_dir_cluster = parent_cluster;
        file_offset = 0;
        formatted_name = format_name_to_fat32 target_name;
      },
    )

-- The end of `fat32_open`, behind the loop.
unfoldable pub open_target : (fuel : ℕ) → Fs → File → Parent → Run (ℤ × File)
open_target fuel fs file (failed result) = done (result, file)
open_target fuel fs file (reached dir parent_cluster target_name) = do
  (result, dir') ← read_dir_entry fuel (some fs) dir (some target_name)
  elim (is_zero result) [
    | false ↦ done (error_no_file, file)
    | true ↦ done (open_entry fs file parent_cluster target_name dir')
  ]

-- `current_dir`, of which the code sets `is_initialized` alone.
abbrev pub no_dir : DirEntry
no_dir = record { attributes = 0; file_size = 0; start_cluster = 0; is_initialized = false }

-- `fat32_open(fs, path, file)`: the result and the file afterwards. NULL is `none`.
unfoldable pub fat32_open :
    (fuel : ℕ) → Option Fs → Option Text → Option File → Run (ℤ × Option File)
fat32_open fuel none path file = done (error_bad_parameter, file)
fat32_open fuel (some fs) none file = done (error_bad_parameter, file)
fat32_open fuel (some fs) (some path) none = done (error_bad_parameter, none)
fat32_open fuel (some fs) (some path) (some file) =
    let opened : Run (ℤ × Option File) = do
      parent ← walk fuel fs (parse_fat32_path path) (some no_dir) fs.root_cluster
      (result, file') ← open_target fuel fs file parent
      done (result, some file')
    in if fs.magic == fat32_magic then opened else done (error_bad_parameter, some file)
