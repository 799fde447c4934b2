-- ===== src/Ahci/Commands.antt =====
-- The command of drivers/storage/ata/ahci/ahci.c `ahci_access`, its slot, and when it is issued.
use kernel_old.Base.{
  ◌≤◌, ℕ, zero, suc, ◌+◌, ◌*◌, ◌/◌, ◌^◌, ◌<◌, min, bit_and, bit_or, ◌≡◌, refl, Bool, true, some,
  arith, if◌then◌else◌,
}
use Prim.Native.Nat.{digits, bit_and-bitwise}
use kernel_old.Ahci.{
  false, ltb, dma_access, Fis, Port, find_slot, find_cmd_slot, command_for, spin_loop, wait_loop,
  ahci_access,
}

-- The first sector and the number of sectors that a FIS asks for.
abbrev pub lba_of : Fis → ℕ
lba_of f =
    f.lba0 + f.lba1 * 2 ^ 8 + f.lba2 * 2 ^ 16 + f.lba3 * 2 ^ 24 + f.lba4 * 2 ^ 32 + f.lba5 * 2 ^ 40

abbrev pub count_of : Fis → ℕ
count_of f = f.countl + f.counth * 2 ^ 8

-- The FIS of a command for a sector below `2 ^ 48` and a count below `2 ^ 16` asks for just those,
-- and names the transfer.
pub command_for-fis :
    (sector cnt buffer : ℕ) (write : Bool)
    → sector < 2 ^ 48
    → cnt < 2 ^ 16
    → (lba_of (command_for sector cnt buffer write).fis ≡ sector)
      × (count_of (command_for sector cnt buffer write).fis ≡ cnt)
      × ((command_for sector cnt buffer write).fis.command ≡ (if write then 0x35 else 0x25))
unfolding command_for
command_for-fis sector cnt buffer write lt lt' = (omega (arith, lt), omega (arith, lt'), refl)

digits-zero : (fuel n : ℕ) → digits (λ b. zero) min fuel n 0 ≡ 0
digits-zero zero n = refl
digits-zero (suc fuel) zero = refl
digits-zero (suc fuel) (suc n) = omega (arith, digits-zero fuel (suc n / 2))

bit_and_zero : (n : ℕ) → bit_and n 0 ≡ 0
bit_and_zero n = omega (arith, bit_and-bitwise n 0, digits-zero n n)

-- The slot is the first one, whatever the registers say.
pub find_cmd_slot-first : (port : Port) → find_cmd_slot port ≡ some 0
unfolding find_cmd_slot find_slot
find_cmd_slot-first port =
    rw (bit_and_zero (bit_or port.sata_active port.cmd_issue), find_slot) refl

-- The port becomes ready in time, and the command in slot 0 comes to an end without an error.
unfoldable pub Answers : (fuel : ℕ) → Port → Type 0
Answers fuel port = (spin_loop port 0 1000000 ≡ true) × (wait_loop fuel port 0 0 ≡ some true)

-- An access of up to 8 sectors of a port that answers issues its command and succeeds.
pub dma_access-issued :
    (fuel : ℕ) (port : Port) (sector cnt buffer : ℕ) (write : Bool)
    → Answers fuel port
    → cnt ≤ 8
    → dma_access fuel port sector cnt buffer write
      ≡ some (true, some (command_for sector cnt buffer write))
unfolding Answers ahci_access dma_access
dma_access-issued fuel port sector cnt buffer write (ready, done) few =
    let fits : ltb 8 cnt ≡ false = ground (arith, few) in
    rw (fits, ahci_access, find_cmd_slot-first port, ready, done) refl
