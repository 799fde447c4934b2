-- ===== src/Pci.antt =====
-- The PCI bus: drivers/pci/pci.c. The port instructions of sys/io.c on the two ports of the bus are
-- the operations of `Ports`, whose laws `IsConfig` are those of a configuration space. A mask over
-- neighbouring bits is written by `/`, `%` and `*`.
pub mod Access
pub mod Listing
pub mod Enumerate
mod Tests
use kernel_old.Base.{
  ℕ, zero, suc, ◌+◌, ◌-◌, ◌*◌, ◌/◌, ◌%◌, ◌^◌, ◌≤◌, ◌<◌, min, bit_and, bit_or, bit_xor, ◌≡◌, refl,
  sym, ap, ap₂, subst, ◌∙◌, ◌≢◌, ◌↔◌, ◌⊎◌, inl, inr, Bool, true, false, not, ◌&&◌, ◌||◌, Option,
  none, some, List, [], ◌∷◌, ◌++◌, map, arith, ltb, leb, ◌==◌, if◌then◌else◌, ltb→lt, lt→ltb,
  leb→le, ==_iff, ==_refl, Bool-cases, Option-cases, length, get_elem?, set, length-append,
  append_assoc, update_self, update, every, every-holds, ==_false, update_ne, bool_eq, bool_eq→≡,
  overlay, overlay-inside, overlay-within, overlay-outside, load16, load32, load64, shift_left,
  bit_or-shift_left, bit_or-shift_right,
}

-- `outl` to `PCI_CFG_ADDR`, and `inl`, `outl` and `outb` on `PCI_CFG_DATA`.
pub record Ports (S : Type 0) : Type 0 where
  pub out_addr : (addr : ℕ) → S → S
  pub in_data : S → ℕ
  pub out_data : (v : ℕ) → S → S
  pub out_byte : (v : ℕ) → S → S

-- Registers of 32 bits by their address, of which one is selected; `outb` writes its lowest byte. A
-- register is plain if its bits are read as they were written, and writing it changes no other: the
-- identifiers, which are only read, and the status, whose bits a written 1 clears, are not.
pub record IsConfig {S : Type 0} (p : Ports S) : Type 0 where
  pub selected : S → ℕ
  pub register : S → ℕ → ℕ
  pub plain : ℕ → Bool
  pub selected-out_addr : (addr : ℕ) (s : S) → selected (p.out_addr addr s) ≡ addr
  pub register-out_addr : (addr : ℕ) (s : S) (a : ℕ) → register (p.out_addr addr s) a ≡ register s a
  pub in_data-register : (s : S) → p.in_data s ≡ register s (selected s)
  pub selected-out_data : (v : ℕ) (s : S) → selected (p.out_data v s) ≡ selected s
  pub register-out_data :
      (v : ℕ) (s : S) (a : ℕ)
      → plain (selected s) ≡ true
      → register (p.out_data v s) a ≡ (if a == selected s then v else register s a)
  pub register-out_byte :
      (v : ℕ) (s : S) (a : ℕ)
      → plain (selected s) ≡ true
      → register (p.out_byte v s) a
        ≡ (if a == selected s then register s a / 2 ^ 8 * 2 ^ 8 + v else register s a)

-- `(bus << 16) | (slot << 11) | (func << 8) | (off & 0xfc) | 0x80000000`
unfoldable pub cfg_addr : (bus slot func off : ℕ) → ℕ
cfg_addr bus slot func off =
    bit_or
      (bit_or (bit_or (bit_or (shift_left bus 16) (shift_left slot 11)) (shift_left func 8))
        (off / 4 * 4))
      (shift_left 1 31)

-- `(off & 2) * 8` and `(off & 3) * 8`
abbrev pub word_shift : ℕ → ℕ
word_shift off = off % 4 / 2 * 16

abbrev pub byte_shift : ℕ → ℕ
byte_shift off = off % 4 * 8

pub record PciDev : Type 0 where
  pub dev_id : ℕ
  pub vendor_id : ℕ
  pub bus : ℕ
  pub slot : ℕ
  pub func : ℕ
  pub class_code : ℕ
  pub subclass : ℕ
  pub progif : ℕ

module _ {S : Type 0} (p : Ports S) where
  unfoldable pub pci_cfg_readl : (bus slot func off : ℕ) → S → ℕ × S
  pci_cfg_readl bus slot func off s =
      let s' : S = p.out_addr (cfg_addr bus slot func off) s in (p.in_data s', s')

  unfoldable pub pci_cfg_readw : (bus slot func off : ℕ) → S → ℕ × S
  pci_cfg_readw bus slot func off s =
      let s' : S = p.out_addr (cfg_addr bus slot func off) s in
      (p.in_data s' / 2 ^ word_shift off % 2 ^ 16, s')

  unfoldable pub pci_cfg_readb : (bus slot func off : ℕ) → S → ℕ × S
  pci_cfg_readb bus slot func off s =
      let s' : S = p.out_addr (cfg_addr bus slot func off) s in
      (p.in_data s' / 2 ^ byte_shift off % 2 ^ 8, s')

  unfoldable pub pci_cfg_writel : (bus slot func off v : ℕ) → S → S
  pci_cfg_writel bus slot func off v s = p.out_data v (p.out_addr (cfg_addr bus slot func off) s)

  -- The bits of the word are taken out and those of `v` put in.
  unfoldable pub pci_cfg_writew : (bus slot func off v : ℕ) → S → S
  pci_cfg_writew bus slot func off v s =
      let s' : S = p.out_addr (cfg_addr bus slot func off) s in
      let old : ℕ = p.in_data s' in
      let at : ℕ = 2 ^ word_shift off in p.out_data (old - old / at % 2 ^ 16 * at + v * at) s'

  -- `outb` takes the lowest byte of what it is passed.
  unfoldable pub pci_cfg_writeb : (bus slot func off v : ℕ) → S → S
  pci_cfg_writeb bus slot func off v s =
      let s' : S = p.out_addr (cfg_addr bus slot func off) s in
      let old : ℕ = p.in_data s' in
      let at : ℕ = 2 ^ byte_shift off in
      p.out_byte ((old - old / at % 2 ^ 8 * at + v * at) % 2 ^ 8) s'

  -- A bit of `PCI_COMMAND` set.
  unfoldable pub set_command : (bit : ℕ) → PciDev → S → S
  set_command bit dev s =
      let (command, s') = pci_cfg_readw dev.bus dev.slot dev.func 4 s in
      pci_cfg_writew dev.bus dev.slot dev.func 4 (bit_or command bit) s'

  unfoldable pub pci_enable_bus_master : PciDev → S → S
  pci_enable_bus_master dev s = set_command (2 ^ 2) dev s

  unfoldable pub pci_enable_mem_space : PciDev → S → S
  pci_enable_mem_space dev s = set_command (2 ^ 1) dev s

  unfoldable pub pci_enable_io_space : PciDev → S → S
  pci_enable_io_space dev s = set_command (2 ^ 0) dev s

  -- Bit 10 of `PCI_COMMAND` cleared.
  unfoldable pub pci_enable_ints : PciDev → S → S
  pci_enable_ints dev s =
      let (command, s') = pci_cfg_readw dev.bus dev.slot dev.func 4 s in
      pci_cfg_writew dev.bus dev.slot dev.func 4 (command - command / 2 ^ 10 % 2 * 2 ^ 10) s'

  -- `bar & 1`, of the register at `PCI_BAR0 + idx * 4`.
  unfoldable pub pci_bar_isioport : PciDev → (idx : ℕ) → S → ℕ × S
  pci_bar_isioport dev idx s =
      let (bar, s') = pci_cfg_readl dev.bus dev.slot dev.func ((0x10 + idx * 4) % 2 ^ 8) s in
      (bar % 2, s')

  -- The address without the lowest two bits of an I/O bar, or the lowest four of another.
  unfoldable pub pci_get_base_addr : PciDev → (idx : ℕ) → S → ℕ × S
  pci_get_base_addr dev idx s =
      let (bar, s') = pci_cfg_readl dev.bus dev.slot dev.func ((0x10 + idx * 4) % 2 ^ 8) s in
      (if bar % 2 == 1 then bar / 4 * 4 else bar / 16 * 16, s')

  -- Whether the vendor is not `0xffff`.
  unfoldable pub pci_check_dev : (bus dev func : ℕ) → S → Bool × S
  pci_check_dev bus dev func s =
      let (vendor, s') = pci_cfg_readw bus dev func 0 s in (not (vendor == 0xffff), s')

  unfoldable pub pci_get_hdr_type : (bus slot func : ℕ) → S → ℕ × S
  pci_get_hdr_type bus slot func s = pci_cfg_readb bus slot func 0x0e s

  -- The device that is put at the end of `pci_devs`.
  unfoldable pub pci_add_dev : (bus slot func : ℕ) → S → PciDev × S
  pci_add_dev bus slot func s =
      let (vendor, s1) = pci_cfg_readw bus slot func 0 s in
      let (id, s2) = pci_cfg_readw bus slot func 2 s1 in
      let (class, s3) = pci_cfg_readb bus slot func 0x0b s2 in
      let (sub, s4) = pci_cfg_readb bus slot func 0x0a s3 in
      let (prog, s5) = pci_cfg_readb bus slot func 0x09 s4 in
      (
        record {
          dev_id = id;
          vendor_id = vendor;
          bus = bus;
          slot = slot;
          func = func;
          class_code = class;
          subclass = sub;
          progif = prog;
        },
        s5,
      )

  -- The loop over the functions of a device from `func` on.
  unfoldable pub func_loop : (bus dev func rounds : ℕ) → List PciDev → S → List PciDev × S
  func_loop bus dev func zero devs s = (devs, s)
  func_loop bus dev func (suc n) devs s =
      let (there, s1) = pci_check_dev bus dev 0 s in
      let (d, s2) = pci_add_dev bus dev func s1 in
      if there
      then func_loop bus dev (func + 1) n (devs ++ (d ∷ [])) s2
      else func_loop bus dev (func + 1) n devs s1

  -- One round of the loops over the buses and devices; `func` is kept from the last round.
  unfoldable pub one_dev : (bus dev func : ℕ) → List PciDev → S → ℕ × List PciDev × S
  one_dev bus dev func devs s =
      let (there, s1) = pci_check_dev bus dev 0 s in
      let (d, s2) = pci_add_dev bus dev 0 s1 in
      let (hdr, s3) = pci_get_hdr_type bus dev func s2 in
      let (devs', s4) = func_loop bus dev 1 7 (devs ++ (d ∷ [])) s3 in
      if not there
      then (func, devs, s1)
      else if bit_and hdr 0x80 == 0
      then (func, devs ++ (d ∷ []), s3)
      else (8, devs', s4)

  -- The loop over the devices of a bus from `dev` on.
  unfoldable pub dev_loop : (bus dev rounds func : ℕ) → List PciDev → S → ℕ × List PciDev × S
  dev_loop bus dev zero func devs s = (func, devs, s)
  dev_loop bus dev (suc n) func devs s =
      let (func', devs', s') = one_dev bus dev func devs s in
      dev_loop bus (dev + 1) n func' devs' s'

  unfoldable pub bus_loop : (bus rounds func : ℕ) → List PciDev → S → ℕ × List PciDev × S
  bus_loop bus zero func devs s = (func, devs, s)
  bus_loop bus (suc n) func devs s =
      let (func', devs', s') = dev_loop bus 0 32 func devs s in bus_loop (bus + 1) n func' devs' s'

  -- `pci_devs` and the state of the bus afterwards.
  unfoldable pub pci_enumerate : S → List PciDev × S
  pci_enumerate s = let (func, devs, s') = bus_loop 0 256 0 [] s in (devs, s')
