-- ===== src/Mmc.antt =====
-- boot/mmc.c and mmc.h: the driver of the SD card's controller, on any device in its place. The two
-- waits of `send_command` have no bound in the source and take fuel.
pub mod Card
pub mod Disk
pub mod Init
pub mod Outcome
pub mod Sd
pub mod Sector
mod Tests
pub mod Total
pub mod Transfer
pub mod Word
use kernel_team_project.Base.{
  ℕ, zero, suc, ◌+◌, ◌-◌, ◌*◌, ◌%◌, ◌≡◌, refl, Bool, true, false, ◌||◌, ◌==◌, ◌!=◌, if◌then◌else◌,
  List, [], ◌∷◌, bit_and, bit_or, ◌<<◌, ◌>>>◌, update, u32_mod, ℤ, pos, negsuc,
}
use kernel_team_project.Mmc.Sd
use kernel_team_project.Regs.{
  Bus, Io, pure, stuck, ◌>>=◌, ◌>>◌, skip, uart_puts, log_message, log_level_error, log_level_warn,
  log_level_debug, reg32_write, reg32_write_masked, reg32_read, reg32_read_masked, poll, wait_until,
  not32,
}

abbrev pub mmchs0_base : ℕ
mmchs0_base = 0x48060000

-- SD_STAT_CLEAR
abbrev pub stat_clear : ℕ
stat_clear = 0xFFFFFFFF

-- CTO_ERROR, CC and -1
abbrev pub cto_error : ℤ
cto_error = negsuc 15

abbrev pub cc : ℤ
cc = pos 0

abbrev pub failure : ℤ
failure = negsuc 0

-- `cmdNum` of the one command that moves data.
abbrev pub cmd17 : ℕ
cmd17 = 0x11

-- SD_CMD_CCCE_CICE_ENABLE, SD_CMD_CMDTYPE_NORMAL, SD_CMD_DP and SD_CMD_DDIR_READ
abbrev pub check_response : ℕ
check_response = 0x3 << 19

abbrev pub cmdtype_normal : ℕ
cmdtype_normal = 0x0 << 22

abbrev pub data_present : ℕ
data_present = 0x1 << 21

abbrev pub data_read : ℕ
data_read = 0x1 << 4

-- SD_CMD_48BITRSP
abbrev pub rsp_48_bits : ℕ
rsp_48_bits = 0x2

-- What `sendCommand` writes to the command register.
unfoldable pub command_word : (cmd_num rsp_type : ℕ) → ℕ
command_word cmd_num rsp_type =
    let reg = bit_or 0 ((rsp_type << 16) % u32_mod) in
    let reg = bit_or reg check_response in
    let reg = bit_or reg ((cmd_num << 24) % u32_mod) in
    let reg = bit_or reg cmdtype_normal in
    if cmd_num == cmd17 then bit_or (bit_or reg data_present) data_read else reg

-- How many words of response `sendCommand` reads after a command.
pub data Response : Type 0 where
  one_word : Response
  four_words : Response
  no_word : Response
  not_listed : Response

-- Whether a number is in a list of `case`s.
abbrev pub is_case : ℕ → List ℕ → Bool
is_case n [] = false
is_case n (k ∷ ks) = n == k || is_case n ks

-- R1 and R1b
abbrev pub one_word_commands : List ℕ
one_word_commands =
    1 ∷ 6 ∷ 9 ∷ 10 ∷ 16 ∷ 17 ∷ 18 ∷ 24 ∷ 25 ∷ 27 ∷ 30 ∷ 32 ∷ 33 ∷ 42 ∷ 55 ∷ 56 ∷ 59 ∷ 41 ∷ 12 ∷ 28
    ∷ 29 ∷ 38 ∷ []

-- The `switch` of `sendCommand`; 58 has a response R3 and 8 has R7.
unfoldable pub response_of : (cmd_num : ℕ) → Response
response_of cmd_num =
    if is_case cmd_num one_word_commands
    then one_word
    else if cmd_num == 13
    then four_words
    else if cmd_num == 58
    then one_word
    else if cmd_num == 8
    then one_word
    else if cmd_num == 0
    then no_word
    else not_listed

-- `uint8_t buffer[512]`, and `unsigned int response[4]`.
abbrev pub Words : Type 0
Words = ℕ → ℕ

module _ {D : Type 0} (bus : Bus D) where
  -- `while (STAT.CC is not set) if (STAT.CTO is set) return CTO_ERROR;`: whether the command completed.
  unfoldable pub wait_complete : (fuel : ℕ) → Io D Bool
  wait_complete zero = stuck
  wait_complete (suc fuel) =
      let rest = wait_complete fuel in
      do
        complete ← reg32_read_masked bus mmchs0_base Sd.stat 0x1
        if complete == 0x1 then pure true else do
          timed_out ← reg32_read_masked bus mmchs0_base Sd.stat (0x1 << 16)
          if timed_out == 0x1 << 16 then pure false else rest

  read_response : Words → Response → Io D (ℤ × Words)
  read_response response one_word = do
    r0 ← reg32_read bus mmchs0_base Sd.rsp10
    pure (cc, update response 0 r0)
  read_response response four_words = do
    r0 ← reg32_read bus mmchs0_base Sd.rsp10
    r1 ← reg32_read bus mmchs0_base Sd.rsp32
    r2 ← reg32_read bus mmchs0_base Sd.rsp54
    r3 ← reg32_read bus mmchs0_base Sd.rsp76
    pure (cc, update (update (update (update response 0 r0) 1 r1) 2 r2) 3 r3)
  read_response response no_word = pure (cc, response)
  read_response response not_listed = do
    uart_puts "command type not listed\n"
    pure (failure, response)

  -- What follows the loop that waits for the command.
  unfoldable pub completed : (cmd_num : ℕ) → Words → Bool → Io D (ℤ × Words)
  unfolding read_response response_of log_message
  completed cmd_num response true = do
    if cmd_num != cmd17 then reg32_write_masked bus mmchs0_base Sd.stat 0x1 0x1 else skip
    read_response response (response_of cmd_num)
  completed cmd_num response false = do
    reg32_write bus mmchs0_base Sd.stat stat_clear
    log_message log_level_error "Command Timeout error on cmd %d\n" (cmd_num ∷ [])
    pure (cto_error, response)

  -- What follows the wait for the permission to send a command.
  unfoldable pub allowed_command : (fuel cmd_num args rsp_type : ℕ) → Words → Io D (ℤ × Words)
  unfolding log_message
  allowed_command fuel cmd_num args rsp_type response = do
    reg32_write bus mmchs0_base Sd.stat stat_clear
    reg32_write bus mmchs0_base Sd.arg args
    let reg = command_word cmd_num rsp_type
    log_message log_level_debug "sending command %d\n" (cmd_num ∷ [])
    reg32_write bus mmchs0_base Sd.cmd reg
    log_message log_level_debug "waiting for command to complete\n" []
    complete ← wait_complete fuel
    completed cmd_num response complete

  unfoldable pub send_command : (fuel cmd_num args rsp_type : ℕ) → Words → Io D (ℤ × Words)
  send_command fuel cmd_num args rsp_type response = do
    wait_until bus fuel mmchs0_base Sd.pstate 0x1 0
    allowed_command fuel cmd_num args rsp_type response
