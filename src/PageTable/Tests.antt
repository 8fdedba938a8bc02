-- ===== src/PageTable/Tests.antt =====
-- The theorems about the page table at concrete addresses.
use kernel_team_project.Base.{◌≡◌, none, arith}
use kernel_team_project.PageTable.{Table, map_hardware_pages, log_l1_pte}
use kernel_team_project.PageTable.Hardware.{dram_supersection}

abbrev blank : Table
blank _ = 0

dram_supersection_example : log_l1_pte (map_hardware_pages blank 0x9FE) ≡ none
dram_supersection_example = dram_supersection blank 0x9FE (omega arith) (omega arith)
