-- ===== src/Fat32/Open/Walk.antt =====
-- `fat32_open` against the tree of directories that a disk holds.
use mathlib.Core.Path.{subst}
use kernel_team_project.Base.{
  ℕ, suc, ◌≡◌, ◌≢◌, ◌∙◌, ap, refl, sym, some, List, [], ◌∷◌, eq→==, ne→not-==, bit_and,
}
use kernel_team_project.Fat32.Types.{
  Bytes, Fs, File, DirEntry, done, ◌>>=◌, bind_assoc, fat32_magic, attr_directory, success,
  error_is_dir,
}
use kernel_team_project.Fat32.Strings.{Text}
use kernel_team_project.Fat32.Name.{format_name_to_fat32}
use kernel_team_project.Fat32.Path.{parse_fat32_path}
use kernel_team_project.Fat32.Directory.{first_cluster, read_dir_entry}
use kernel_team_project.Fat32.Directory.Entries.{Holds, described, read_dir_entry_found}
use kernel_team_project.Fat32.Open.{walk, open_entry, open_target, no_dir, fat32_open}

-- From the directory at a cluster the names of a path lead, each in the first cluster of its
-- directory, to the entry `e` of the directory at `parent`.
pub data Leads (fs : Fs)
    : (cluster : ℕ) → List Text → (parent : ℕ) → (target : Text) → Bytes → Type 0 where
  last :
      {cluster : ℕ} {name : Text} {e : Bytes}
      → Holds fs cluster name e
      → Leads fs cluster (name ∷ []) cluster name e
  through :
      {cluster parent : ℕ} {name next target : Text} {names : List Text} {d e : Bytes}
      → Holds fs cluster name d
      → Leads fs (described d).start_cluster (next ∷ names) parent target e
      → Leads fs cluster (name ∷ next ∷ names) parent target e

-- The file that an entry describes.
abbrev pub opened_file : Fs → File → (parent : ℕ) → (target : Text) → Bytes → File
opened_file fs file parent target e = record file {
  fs = fs;
  start_cluster = (described e).start_cluster;
  current_cluster = (described e).start_cluster;
  file_size = (described e).file_size;
  parent_dir_cluster = parent;
  file_offset = 0;
  formatted_name = format_name_to_fat32 target;
}

first-described :
    (fs : Fs) (e : Bytes) → first_cluster fs (some (described e)) ≡ (described e).start_cluster
unfolding first_cluster
first-described fs e = refl

module _ (fuel : ℕ) (fs : Fs) (file : File) where
  found_at :
      (dir : DirEntry) {cluster : ℕ} {name : Text} {e : Bytes}
      → first_cluster fs (some dir) ≡ cluster
      → Holds fs cluster name e
      → read_dir_entry (suc fuel) (some fs) (some dir) (some name)
        ≡ done (success, some (described e))
  found_at dir {cluster} {name} {e} at held =
      read_dir_entry_found fuel fs dir name e (subst (λ c. Holds fs c name e) (sym at) held)

  opens :
      (dir : DirEntry) (parent_cluster : ℕ) {cluster parent : ℕ} {names : List Text} {target : Text}
      {e : Bytes}
      → first_cluster fs (some dir) ≡ cluster
      → parent_cluster ≡ cluster
      → Leads fs cluster names parent target e
      → (walk (suc fuel) fs names (some dir) parent_cluster >>= open_target (suc fuel) fs file)
        ≡ done (open_entry fs file parent target (some (described e)))
  unfolding walk open_target
  opens dir parent_cluster at same (last held) = rw (found_at dir at held, same)
  opens dir parent_cluster at same (through {d = d} held rest) =
      rw (found_at dir at held)
        (opens (described d) (described d).start_cluster (first-described fs d) refl rest)

  module _ (path : Text) {parent : ℕ} {target : Text} {e : Bytes} (mounted : fs.magic ≡ fat32_magic)
      (leads : Leads fs fs.root_cluster (parse_fat32_path path) parent target e) where
    open_by_entry : fat32_open (suc fuel) (some fs) (some path) (some file) ≡ (
        done (open_entry fs file parent target (some (described e))) >>= λ r. done (r.0, some r.1))
    unfolding fat32_open first_cluster
    open_by_entry = rw (eq→== fs.magic fat32_magic mounted) (
        sym (
          bind_assoc (walk (suc fuel) fs (parse_fat32_path path) (some no_dir) fs.root_cluster)
            (open_target (suc fuel) fs file) (λ r. done (r.0, some r.1)))
        ∙ ap (λ m. m >>= λ r. done (r.0, some r.1)) (opens no_dir fs.root_cluster refl refl leads))

    -- A path whose components lead from the root directory to a file, each name in the first cluster of
    -- its directory, opens that file: at offset 0, with the start cluster and the size that the bytes of
    -- its entry say, in the directory that holds it.
    pub fat32_open_file :
        bit_and (described e).attributes attr_directory ≢ attr_directory
        → fat32_open (suc fuel) (some fs) (some path) (some file)
          ≡ done (success, some (opened_file fs file parent target e))
    unfolding open_entry
    fat32_open_file plain =
        open_by_entry
        ∙ rw (ne→not-== (bit_and (described e).attributes attr_directory) attr_directory plain)

    -- Such a path that leads to a directory is refused as one, and the file is left as it was.
    pub fat32_open_directory :
        bit_and (described e).attributes attr_directory ≡ attr_directory
        → fat32_open (suc fuel) (some fs) (some path) (some file) ≡ done (error_is_dir, some file)
    unfolding open_entry
    fat32_open_directory dir =
        open_by_entry
        ∙ rw (eq→== (bit_and (described e).attributes attr_directory) attr_directory dir)
