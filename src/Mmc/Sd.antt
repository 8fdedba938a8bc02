-- ===== src/Mmc/Sd.antt =====
-- The registers of the SD card's controller, by their offsets: boot/mmc.h.
use Prim.Native.Nat.{ℕ}

abbrev pub sysconfig : ℕ
sysconfig = 0x110

abbrev pub con : ℕ
con = 0x12C

abbrev pub blk : ℕ
blk = 0x204

abbrev pub arg : ℕ
arg = 0x208

abbrev pub cmd : ℕ
cmd = 0x20C

abbrev pub rsp10 : ℕ
rsp10 = 0x210

abbrev pub rsp32 : ℕ
rsp32 = 0x214

abbrev pub rsp54 : ℕ
rsp54 = 0x218

abbrev pub rsp76 : ℕ
rsp76 = 0x21C

abbrev pub data_reg : ℕ
data_reg = 0x220

abbrev pub pstate : ℕ
pstate = 0x224

abbrev pub hctl : ℕ
hctl = 0x228

abbrev pub sysctl : ℕ
sysctl = 0x22C

abbrev pub stat : ℕ
stat = 0x230

abbrev pub capa : ℕ
capa = 0x240
