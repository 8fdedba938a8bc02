-- ===== src/Boot.antt =====
-- `min` and `levenshtein` of boot/bootloader.c. A string is the function from an index to its character.
pub mod Devices
pub mod Distance
pub mod Image
pub mod Kernel
pub mod Starting
mod Tests
use kernel_team_project.Base.{ℕ, zero, suc, ◌+◌, Bool, ◌&&◌, ◌==◌, leb, if◌then◌else◌}

unfoldable pub min_of : (a b c : ℕ) → ℕ
min_of a b c = if leb a b && leb a c then a else if leb b a && leb b c then b else c

unfoldable pub levenshtein : (str1 str2 : ℕ → ℕ) → (len1 len2 : ℕ) → ℕ
levenshtein str1 str2 zero len2 = len2
levenshtein str1 str2 (suc a) zero = suc a
levenshtein str1 str2 (suc a) (suc b) =
    let insert = levenshtein str1 str2 (suc a) b in
    let remove = levenshtein str1 str2 a (suc b) in
    let replace = levenshtein str1 str2 a b in
    if str1 a == str2 b then replace else 1 + min_of insert remove replace
