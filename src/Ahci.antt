-- ===== src/Ahci.antt =====
-- The AHCI disk driver: drivers/storage/ata/ahci/ahci.c. The registers that the controller changes
-- are what successive reads of them give; the controller's transfer of a command's sectors is an
-- argument of `ahci_read` and `ahci_write`.
pub mod Commands
pub mod Reading
pub mod Writing
pub mod ReadBack
pub mod Ports
mod Tests
use kernel_old.Base.{
  ℕ, zero, suc, ◌+◌, ◌-◌, ◌*◌, ◌/◌, ◌%◌, ◌^◌, ◌≤◌, ◌<◌, min, bit_and, bit_or, bit_xor, ◌≡◌, refl,
  sym, ap, ap₂, subst, ◌∙◌, ◌≢◌, ◌↔◌, ◌⊎◌, inl, inr, Bool, true, false, not, ◌&&◌, ◌||◌, Option,
  none, some, List, [], ◌∷◌, ◌++◌, map, arith, ltb, leb, ◌==◌, if◌then◌else◌, ltb→lt, lt→ltb,
  leb→le, ==_iff, ==_refl, Bool-cases, Option-cases, length, get_elem?, set, length-append,
  append_assoc, update_self, update, every, every-holds, ==_false, update_ne, bool_eq, bool_eq→≡,
  overlay, overlay-inside, overlay-within, overlay-outside,
}

-- `fis_reg_h2d_t`, with the fields that are set.
pub record Fis : Type 0 where
  pub fis_type : ℕ
  pub com_ctrl : ℕ
  pub command : ℕ
  pub lba0 : ℕ
  pub lba1 : ℕ
  pub lba2 : ℕ
  pub device : ℕ
  pub lba3 : ℕ
  pub lba4 : ℕ
  pub lba5 : ℕ
  pub countl : ℕ
  pub counth : ℕ

-- The header of a command, the only entry of its table, and its FIS.
pub record Command : Type 0 where
  pub cmd_fis_len : ℕ
  pub write : Bool
  pub prdt_len : ℕ
  pub data_base_addr : ℕ
  pub data_base_addr_u : ℕ
  pub byte_cnt : ℕ
  pub int_on_cmpl : ℕ
  pub fis : Fis

-- What the reads of the port's registers give during one access; `task_file`, `issue` and `status`
-- by the number of the read in their loop.
pub record Port : Type 0 where
  pub sata_active : ℕ
  pub cmd_issue : ℕ
  pub task_file : ℕ → ℕ
  pub issue : ℕ → ℕ
  pub status : ℕ → ℕ

-- The loop of `find_cmd_slot` from `i` on.
unfoldable pub find_slot : (slots i rounds : ℕ) → Option ℕ
find_slot slots i zero = none
find_slot slots i (suc n) =
    let next = find_slot (slots / 2) (i + 1) n in if bit_and slots i == 0 then some i else next

unfoldable pub find_cmd_slot : Port → Option ℕ
find_cmd_slot port = find_slot (bit_or port.sata_active port.cmd_issue) 0 32

-- The command that `ahci_access` builds for `cnt` sectors from `sector` on.
unfoldable pub command_for : (sector cnt buffer : ℕ) → (write : Bool) → Command
command_for sector cnt buffer write = record {
  cmd_fis_len = 20 / 4;
  write = write;
  prdt_len = ((cnt + (2 ^ 32 - 1)) % 2 ^ 32 / 2 ^ 4 % 2 ^ 16 + 1) % 2 ^ 16;
  data_base_addr = buffer % 2 ^ 32;
  data_base_addr_u = buffer / 2 ^ 32 % 2 ^ 32;
  byte_cnt = (cnt * 512 + (2 ^ 32 - 1)) % 2 ^ 22;
  int_on_cmpl = 1;
  fis = record {
    fis_type = 0x27;
    com_ctrl = 1;
    command = if write then 0x35 else 0x25;
    lba0 = sector % 2 ^ 8;
    lba1 = sector / 2 ^ 8 % 2 ^ 8;
    lba2 = sector / 2 ^ 16 % 2 ^ 8;
    device = 2 ^ 6;
    lba3 = sector / 2 ^ 24 % 2 ^ 8;
    lba4 = sector / 2 ^ 32 % 2 ^ 8;
    lba5 = sector / 2 ^ 40 % 2 ^ 8;
    countl = cnt % 2 ^ 8;
    counth = cnt / 2 ^ 8 % 2 ^ 8;
  };
}

-- The loop on `spin`: the port is no longer busy before `spin` reaches its bound.
unfoldable pub spin_loop : Port → (spin rounds : ℕ) → Bool
spin_loop port spin zero = false
spin_loop port spin (suc n) =
    let next = spin_loop port (spin + 1) n in
    if bit_and (port.task_file spin) (bit_or 0x80 0x08) == 0 then true else next

-- The wait for completion, on fuel; `false` is a task file error.
unfoldable pub wait_loop : (fuel : ℕ) → Port → (slot n : ℕ) → Option Bool
wait_loop zero port slot n = none
wait_loop (suc fuel) port slot n =
    let next = wait_loop fuel port slot (n + 1) in
    let no_error : Bool = bit_and (port.status n) (2 ^ 30) == 0 in
    if bit_and (port.issue n) (2 ^ slot) == 0
    then some no_error
    else if no_error
    then next
    else some false

-- `ahci_access`: what it returns, and the command it issues, if any.
unfoldable pub ahci_access :
    (fuel : ℕ) → Port → (sector cnt buffer : ℕ) → (write : Bool) → Option (Bool × Option Command)
ahci_access fuel port sector cnt buffer write = elim (find_cmd_slot port) [
  | none ↦ some (false, none)
  | some slot ↦
      if spin_loop port 0 1000000
      then elim (wait_loop fuel port slot 0) [
        | none ↦ none
        | some ok ↦ some (ok, some (command_for sector cnt buffer write))
      ]
      else some (false, none)
]

-- The command's transfer from the sectors into the port's buffer, and from the buffer to the sectors,
-- by whether the command has ended without an error.
abbrev pub FromDisk : Type 0
FromDisk = (ok : Bool) → Command → (sectors : ℕ → ℕ → ℕ) → (buf : ℕ → ℕ) → ℕ → ℕ

abbrev pub ToDisk : Type 0
ToDisk = (ok : Bool) → Command → (buf : ℕ → ℕ) → (sectors : ℕ → ℕ → ℕ) → ℕ → ℕ → ℕ

abbrev pub fetched : FromDisk → (ok : Bool) → Option Command → (ℕ → ℕ → ℕ) → (ℕ → ℕ) → ℕ → ℕ
fetched from_disk ok none sectors buf = buf
fetched from_disk ok (some c) sectors buf = from_disk ok c sectors buf

abbrev pub stored : ToDisk → (ok : Bool) → Option Command → (ℕ → ℕ) → (ℕ → ℕ → ℕ) → ℕ → ℕ → ℕ
stored to_disk ok none buf sectors = sectors
stored to_disk ok (some c) buf sectors = to_disk ok c buf sectors

-- `ahci_access` with the port's buffer, a page: a transfer of more than 8 sectors goes on behind it,
-- which is a fault.
unfoldable pub dma_access :
    (fuel : ℕ) → Port → (sector cnt buffer : ℕ) → (write : Bool) → Option (Bool × Option Command)
dma_access fuel port sector cnt buffer write =
    if ltb 8 cnt then none else ahci_access fuel port sector cnt buffer write

-- The memory after `ahci_read`, `ports k` being the registers during the access `k`, `buf` the page of
-- the port's buffer, and `mem` the memory other than that page, in which `ptr` points. What an access returns is not looked at. The number returned is `len` after the
-- loop, 0.
unfoldable pub ahci_read :
    (fuel : ℕ)
    → FromDisk
    → (ports : ℕ → Port) → (phys_buf : ℕ) → (sectors : ℕ → ℕ → ℕ) → (k ptr off len : ℕ)
    → (buf mem : ℕ → ℕ) → Option (ℕ → ℕ)
ahci_read fuel from_disk ports phys_buf sectors k ptr off zero buf mem = some mem
ahci_read fuel from_disk ports phys_buf sectors k ptr off (suc len) buf mem =
    elim (dma_access fuel (ports k) off (suc len) phys_buf false) [
      | none ↦ none
      | some (ok, issued) ↦
          ahci_read fuel from_disk ports phys_buf sectors (k + 1) (ptr + 512) (off + 1) len
            (fetched from_disk ok issued sectors buf)
            (overlay mem (fetched from_disk ok issued sectors buf) ptr 512)
    ]

-- The sectors after `ahci_write`.
unfoldable pub ahci_write :
    (fuel : ℕ)
    → ToDisk
    → (ports : ℕ → Port) → (phys_buf : ℕ) → (mem : ℕ → ℕ) → (k ptr off len : ℕ) → (buf : ℕ → ℕ)
    → (sectors : ℕ → ℕ → ℕ) → Option (ℕ → ℕ → ℕ)
ahci_write fuel to_disk ports phys_buf mem k ptr off zero buf sectors = some sectors
ahci_write fuel to_disk ports phys_buf mem k ptr off (suc len) buf sectors =
    elim (dma_access fuel (ports k) off (suc len) phys_buf true) [
      | none ↦ none
      | some (ok, issued) ↦
          ahci_write fuel to_disk ports phys_buf mem (k + 1) (ptr + 512) (off + 1) len
            (overlay buf (λ j. mem (ptr + j)) 0 512)
            (stored to_disk ok issued (overlay buf (λ j. mem (ptr + j)) 0 512) sectors)
    ]

-- `check_type`, from the registers `sata_stat` and `sig`.
unfoldable pub check_type : (sata_stat sig : ℕ) → ℕ
check_type sata_stat sig =
    let ipm : ℕ = bit_and (sata_stat / 2 ^ 8) 0xf in
    let det : ℕ = bit_and sata_stat 0xf in
    if not (det == 3)
    then 0
    else if not (ipm == 1)
    then 0
    else if sig == 0x00000101
    then 1
    else if sig == 0xeb140101
    then 4
    else if sig == 0xc33c0101
    then 2
    else if sig == 0x96690101
    then 3
    else 0

-- `ahci_port_t`, with the port of the controller by its index.
pub record AhciPort : Type 0 where
  pub hba_port : ℕ
  pub type : ℕ
  pub num : ℕ

-- The loop of `ahci_probe_ports` from port `i` on.
unfoldable pub probe_loop :
    (ports_impl : ℕ) → (sata_stat sig : ℕ → ℕ) → (i rounds : ℕ) → List AhciPort → List AhciPort
probe_loop ports_impl sata_stat sig i zero found = found
probe_loop ports_impl sata_stat sig i (suc n) found =
    let pt : ℕ = check_type (sata_stat i) (sig i) in
    let port : AhciPort = record { hba_port = i; type = pt; num = length found % 2 ^ 8 } in
    let usable : Bool = not (bit_and ports_impl (2 ^ i) == 0) && ((pt == 1) || (pt == 4)) in
    probe_loop ports_impl sata_stat sig (i + 1) n (if usable then found ++ (port ∷ []) else found)

unfoldable pub ahci_probe_ports : (ports_impl : ℕ) → (sata_stat sig : ℕ → ℕ) → List AhciPort
ahci_probe_ports ports_impl sata_stat sig = probe_loop ports_impl sata_stat sig 0 32 []

-- The port of the device `idx`, which is not negative.
unfoldable pub ahci_get_dev : (idx : ℕ) → List AhciPort → Option AhciPort
ahci_get_dev idx ports = if leb (length ports) idx then none else get_elem? ports idx
