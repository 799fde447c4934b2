-- ===== src/Pci/Tests.antt =====
-- A small configuration space, and the theorems at it.
use kernel_old.Base.{
  length, ℕ, ◌+◌, ◌*◌, ◌/◌, ◌%◌, leb, true, ◌^◌, ◌<◌, ◌≡◌, refl, [], arith, ◌==◌, if◌then◌else◌,
  update,
}
use kernel_old.Pci.{
  Ports, IsConfig, cfg_addr, pci_cfg_readw, pci_cfg_writew, pci_cfg_readb, pci_cfg_writeb,
  pci_enumerate, func_loop, pci_check_dev, pci_add_dev,
}
use kernel_old.Pci.Access.{pci_cfg_readw-pci_cfg_writew}
use kernel_old.Pci.Listing.{Has, Present, AllListed}
use kernel_old.Pci.Enumerate.{pci_enumerate-Listed}

-- The selected address and the registers.
abbrev Bus : Type 0
Bus = ℕ × (ℕ → ℕ)

abbrev ports : Ports Bus
ports = record {
  out_addr = λ addr s. (addr, s.1);
  in_data = λ s. s.1 s.0;
  out_data = λ v s. (s.0, update s.1 s.0 v);
  out_byte = λ v s. (s.0, update s.1 s.0 (s.1 s.0 / 2 ^ 8 * 2 ^ 8 + v));
}

ports-IsConfig : IsConfig ports
ports-IsConfig = record {
  selected = λ s. s.0;
  register = λ s. s.1;
  plain = λ a. leb 64 (a % 256);
  selected-out_addr = λ addr s. refl;
  register-out_addr = λ addr s a. refl;
  in_data-register = λ s. refl;
  selected-out_data = λ v s. refl;
  register-out_data = λ v s a plain. ground arith;
  register-out_byte = λ v s a plain. ground arith;
}

abbrev start : Bus
start = (0, λ a. if a == 0x80000800 then 0x12348086 else 0xffffffff)

plain_address : ports-IsConfig.plain (cfg_addr 0 1 0 0x46) ≡ true
unfolding ports-IsConfig cfg_addr
plain_address = refl

pci_cfg_readw-pci_cfg_writew_example :
    (pci_cfg_readw ports 0 1 0 0x44 (pci_cfg_writew ports 0 1 0 0x46 0xbeef start)).0
    ≡ (pci_cfg_readw ports 0 1 0 0x44 start).0
pci_cfg_readw-pci_cfg_writew_example =
    pci_cfg_readw-pci_cfg_writew ports ports-IsConfig 0 1 0 0x46 0xbeef 0 1 0 0x44 start
      (omega arith, omega arith, omega arith, omega arith)
      (omega arith, omega arith, omega arith, omega arith) plain_address (omega arith)

pci_enumerate-Listed_example :
    AllListed ports ports-IsConfig start (pci_enumerate ports start).0
    × ((b d : ℕ)
        → b < 256
        → d < 32
        → Present ports ports-IsConfig start b d
        → Has b d (pci_enumerate ports start).0)
    × ((a : ℕ)
        → ports-IsConfig.register (pci_enumerate ports start).1 a ≡ ports-IsConfig.register start a)
pci_enumerate-Listed_example = pci_enumerate-Listed ports ports-IsConfig start

-- A byte that is not the lowest of its register is not written.
byte_not_written : (pci_cfg_readb ports 0 1 0 1 (pci_cfg_writeb ports 0 1 0 1 0x55 start)).0 ≡ 0x80
unfolding pci_cfg_readb pci_cfg_writeb cfg_addr
byte_not_written = refl

-- The loop over the functions adds all of them, although only function 0 has a vendor.
all_functions : length (func_loop ports 0 1 1 7 [] start).0 ≡ 7
unfolding func_loop pci_check_dev pci_add_dev pci_cfg_readw pci_cfg_readb cfg_addr
all_functions = refl
