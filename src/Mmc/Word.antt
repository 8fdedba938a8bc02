-- ===== src/Mmc/Word.antt =====
-- The word that `sendCommand` of boot/mmc.c writes to the command register.
use kernel_team_project.Base.{
  ℕ, ◌+◌, ◌*◌, ◌^◌, ◌<◌, ◌≡◌, refl, Bool, true, ◌==◌, ==→eq, if◌then◌else◌, all_below, all_below-lt,
}
use kernel_team_project.Mmc.{command_word, cmd17}

-- The fields of the word, next to one another.
abbrev pub fields : (cmd_num rsp_type : ℕ) → ℕ
fields cmd_num rsp_type =
    cmd_num * 2 ^ 24
    + 3 * 2 ^ 19
    + rsp_type * 2 ^ 16
    + (if cmd_num == cmd17 then 2 ^ 21 + 2 ^ 4 else 0)

abbrev agrees : (cmd_num rsp_type : ℕ) → Bool
agrees cmd_num rsp_type = command_word cmd_num rsp_type == fields cmd_num rsp_type

agrees_table : all_below 64 (λ c. all_below 4 (agrees c)) ≡ true
unfolding command_word
agrees_table = refl

-- The command word of each of the 64 commands and 4 types of response holds the command in bits 24 to
-- 29, both checks of the response, the type of the response in bits 16 and 17, and the two bits of a
-- data transfer for command 17 alone: no field runs into another.
pub command_word-fields :
    (cmd_num rsp_type : ℕ)
    → cmd_num < 64
    → rsp_type < 4
    → command_word cmd_num rsp_type ≡ fields cmd_num rsp_type
command_word-fields cmd_num rsp_type hc hr = ==→eq _ _ (
    all_below-lt 4 (agrees cmd_num) rsp_type
      (all_below-lt 64 (λ c. all_below 4 (agrees c)) cmd_num agrees_table hc) hr)
