-- ===== src/Fat32/File.antt =====
-- The operations of os/fs/fat32.c on an open file that do not touch the disk. NULL is `none`; a
-- function that changes `*file` returns the file afterwards.
use kernel_team_project.Base.{
  ℕ, ◌≤◌, ◌<◌, ◌≡◌, ◌^◌, arith, true, Option, none, some, ltb, leb, if◌then◌else◌, ℤ, pos, negsuc,
  to_i32, to_u32, is_neg, ◌||◌,
}
use kernel_team_project.Fat32.Types.{File, error_bad_parameter, success}

unfoldable pub fat32_tell : Option File → ℤ
fat32_tell none = error_bad_parameter
fat32_tell (some file) = to_i32 file.file_offset

unfoldable pub fat32_seek : Option File → ℤ → ℤ × Option File
fat32_seek none offset = (error_bad_parameter, none)
fat32_seek (some file) offset =
    if is_neg offset || ltb file.file_size (to_u32 offset)
    then (error_bad_parameter, some file)
    else (success, some (record file { file_offset = to_u32 offset }))

unfoldable pub fat32_eof : Option File → ℤ
fat32_eof none = error_bad_parameter
fat32_eof (some file) = if leb file.file_size file.file_offset then pos 1 else pos 0

unfoldable pub fat32_size : Option File → ℤ
fat32_size none = error_bad_parameter
fat32_size (some file) = to_i32 file.file_size

unfoldable pub fat32_close : Option File → ℤ
fat32_close none = error_bad_parameter
fat32_close (some file) = success

-- The offset of an open file lies within the file, and both fit an `int`.
pub record IsOpen (file : File) : Type 0 where
  pub within : file.file_offset ≤ file.file_size
  pub small : file.file_size < 2 ^ 31

-- A seek within the file succeeds, and is read back by `fat32_tell`; at the end of the file, and
-- there alone, `fat32_eof` says so.
pub tell-seek :
    (file : File) (n : ℕ)
    → file.file_size < 2 ^ 31
    → n ≤ file.file_size
    → let (result, file') = fat32_seek (some file) (pos n) in
      (result ≡ success)
      × (fat32_tell file' ≡ pos n)
      × (fat32_eof file' ≡ (if leb file.file_size n then pos 1 else pos 0))
unfolding fat32_seek fat32_tell fat32_eof
tell-seek file n small h = ground arith

-- A seek to a negative offset, or behind the end, is refused and moves nothing.
pub seek_refused :
    (file : File) (offset : ℤ)
    → (is_neg offset || ltb file.file_size (to_u32 offset)) ≡ true
    → fat32_seek (some file) offset ≡ (error_bad_parameter, some file)
unfolding fat32_seek
seek_refused file offset h = rw h

-- Whatever the offset asked for, a seek leaves an open file open.
pub seek-IsOpen :
    (file file' : File) (offset : ℤ)
    → IsOpen file
    → (fat32_seek (some file) offset).1 ≡ some file'
    → IsOpen file'
unfolding fat32_seek
seek-IsOpen file file' (pos n) o e = ground arith
seek-IsOpen file file' (negsuc n) o e = ground arith
