-- ===== src/Paging.antt =====
-- mem/paging.h and mem/paging.c: page table entries, the kernel's heap of virtual pages, and the user
-- half of a page map. A mask over neighbouring bits is written by `/`, `%` and `*`; the frame of an
-- entry is its bits 12 to 51. The kernel's tables are functions from indices to entries; the page
-- tables of user maps are the pages at their kernel addresses. `invlpg` has no effect on these.
pub mod Frames
pub mod Regions
pub mod KernelPages
pub mod KernelAlloc
pub mod HeapRoom
pub mod UserMap
pub mod TableApart
pub mod Isolation
pub mod Runs
mod Tests
use kernel_old.Base.{
  ℕ, zero, suc, ◌+◌, ◌-◌, ◌*◌, ◌/◌, ◌%◌, ◌^◌, ◌≤◌, ◌<◌, min, bit_and, bit_or, bit_xor, ◌≡◌, refl,
  sym, ap, ap₂, ◌∙◌, ◌≢◌, ◌↔◌, ◌⊎◌, inl, inr, Bool, true, false, not, ◌&&◌, ◌||◌, Option, none,
  some, List, [], ◌∷◌, ◌++◌, map, arith, ltb, leb, ◌==◌, if◌then◌else◌, ltb→lt, lt→ltb, leb→le,
  ==_iff, ==_refl, Bool-cases, Option-cases, length, get_elem?, set, length-append, update,
}
use kernel_old.Pmm.{Pmm, pmm_request}

abbrev pub page_size_4k : ℕ
page_size_4k = 4096

abbrev pub page_size_2m : ℕ
page_size_2m = 0x200000

abbrev pub page_size_1g : ℕ
page_size_1g = 0x40000000

abbrev pub pdp_size : ℕ
pdp_size = 0x8000000000

abbrev pub kernel_virtual_addr : ℕ
kernel_virtual_addr = 0xffffffff80000000

abbrev pub io_virtual_addr : ℕ
io_virtual_addr = kernel_virtual_addr - 0x100000000

-- `(vadr >> n) & 0x1ff`
abbrev pub pml4_idx : ℕ → ℕ
pml4_idx vadr = vadr / 2 ^ 39 % 512

abbrev pub pdp_idx : ℕ → ℕ
pdp_idx vadr = vadr / 2 ^ 30 % 512

abbrev pub pd_idx : ℕ → ℕ
pd_idx vadr = vadr / 2 ^ 21 % 512

abbrev pub pt_idx : ℕ → ℕ
pt_idx vadr = vadr / 2 ^ 12 % 512

-- `entry & PAGE_FRAME`
abbrev pub frame_of : ℕ → ℕ
frame_of entry = entry / 2 ^ 12 % 2 ^ 40 * 2 ^ 12

-- `entry & PAGE_PRESENT`
abbrev pub is_present : ℕ → Bool
is_present entry = entry % 2 == 1

-- `entry & PD_2M`
abbrev pub is_2m : ℕ → Bool
is_2m entry = entry / 2 ^ 7 % 2 == 1

-- `(page & ~PAGE_FRAME) | (addr & PAGE_FRAME)`: the two parts share no bit.
unfoldable pub set_page_frame : ℕ → ℕ → ℕ
set_page_frame page addr = page % 2 ^ 12 + page / 2 ^ 52 * 2 ^ 52 + frame_of addr

-- `entry | (PAGE_PRESENT | PAGE_WRITABLE)` and `entry | (PAGE_PRESENT | PAGE_WRITABLE | PAGE_USER)`
abbrev pub or_writable : ℕ → ℕ
or_writable entry = entry / 4 * 4 + 3

abbrev pub or_user : ℕ → ℕ
or_user entry = entry / 8 * 8 + 7

unfoldable pub page_map_mmio : ℕ → ℕ
page_map_mmio physaddr = (physaddr + io_virtual_addr) % 2 ^ 64

-- One entry of a table of tables, set.
abbrev pub update₂ : (ℕ → ℕ → ℕ) → ℕ → ℕ → ℕ → ℕ → ℕ → ℕ
update₂ t i j v = update t i (update (t i) j v)

-- The kernel's side: `kheapdir`, `kheap_tables`, the frame allocator, and the page tables of user
-- maps, by their kernel address.
pub record Kernel : Type 0 where
  pub kheapdir : ℕ → ℕ
  pub kheap_tables : ℕ → ℕ → ℕ
  pub pmm : Pmm
  pub tables : ℕ → ℕ → ℕ

-- `page_kernel_map_memory`, over the pages left.
unfoldable pub page_kernel_map_memory : ℕ → ℕ → ℕ → (ℕ → ℕ → ℕ) → ℕ → ℕ → ℕ
page_kernel_map_memory virt phys zero kt = kt
page_kernel_map_memory virt phys (suc cnt) kt =
    page_kernel_map_memory ((virt + page_size_4k) % 2 ^ 64) ((phys + page_size_4k) % 2 ^ 64) cnt (
      update₂ kt (pd_idx virt) (pt_idx virt)
        (or_writable (set_page_frame (kt (pd_idx virt) (pt_idx virt)) phys)))

unfoldable pub page_kernel_free4k : ℕ → ℕ → (ℕ → ℕ → ℕ) → ℕ → ℕ → ℕ
page_kernel_free4k virt zero kt = kt
page_kernel_free4k virt (suc cnt) kt =
    page_kernel_free4k ((virt + page_size_4k) % 2 ^ 64) cnt
      (update₂ kt (pd_idx virt) (pt_idx virt) 0)

-- The variables `pdoff`, `offset` and `counter` of `page_kernel_alloc4k`.
pub record Run : Type 0 where
  pub pdoff : ℕ
  pub offset : ℕ
  pub counter : ℕ

pub data Scan : Type 0 where
  found : Run → Scan
  going : Run → Scan

-- The loop over `j` in table `i`, over the pages left. `counter` stays below 2 ^ 18.
unfoldable pub scan_table : (ℕ → ℕ → ℕ) → (cnt i j rounds : ℕ) → Run → Scan
scan_table kt cnt i j zero r = going r
scan_table kt cnt i j (suc rounds) r =
    let reset =
      scan_table kt cnt i (j + 1) rounds (record { pdoff = i; offset = j + 1; counter = 0 }) in
    let longer = record r { counter = r.counter + 1 } in
    let next = scan_table kt cnt i (j + 1) rounds longer in
    if is_present (kt i j) then reset else if leb cnt (r.counter + 1) then found longer else next

-- The loop over the directories, over those left.
unfoldable pub scan_dirs : (ℕ → ℕ) → (ℕ → ℕ → ℕ) → (cnt i rounds : ℕ) → Run → Option Run
scan_dirs dir kt cnt i zero r = none
scan_dirs dir kt cnt i (suc rounds) r =
    let skip =
      scan_dirs dir kt cnt (i + 1) rounds (record { pdoff = i + 1; offset = 0; counter = 0 }) in
    let look : Option Run = elim (scan_table kt cnt i 0 512 r) [
      | found r' ↦ some r'
      | going r' ↦ scan_dirs dir kt cnt (i + 1) rounds r'
    ] in
    if not (is_present (dir i)) || is_2m (dir i) then skip else look

-- `while (counter--)`: each page of the run is marked, the table changing at 512.
unfoldable pub mark_run : ℕ → (pdoff offset : ℕ) → (ℕ → ℕ → ℕ) → ℕ → ℕ → ℕ
mark_run zero pdoff offset kt = kt
mark_run (suc n) pdoff offset kt =
    let (pd, off) = if leb 512 offset then (pdoff + 1, 0) else (pdoff, offset) in
    mark_run n pd (off + 1) (update₂ kt pd off 3)

-- The address of a page of the kernel heap; `addr |= 0xffff000000000000` fills the bits from 48 on.
unfoldable pub heap_address : (pdoff offset : ℕ) → ℕ
heap_address pdoff offset =
    (pdp_size * 511 + 511 * page_size_1g + pdoff * page_size_2m + offset * page_size_4k) % 2 ^ 48
    + 0xffff * 2 ^ 48

-- The search for unused directories: the first of enough of them in a row.
unfoldable pub scan_unused : (ℕ → ℕ) → (cnt i rounds pdoff counter : ℕ) → Option ℕ
scan_unused dir cnt i zero pdoff counter = none
scan_unused dir cnt i (suc rounds) pdoff counter =
    let skip = scan_unused dir cnt (i + 1) rounds (i + 1) 0 in
    let next = scan_unused dir cnt (i + 1) rounds pdoff (counter + 512) in
    if is_present (dir i) then skip else if leb cnt (counter + 512) then some pdoff else next

module _ (table_phys : ℕ → ℕ) where
  -- A directory entry that points to its table; `table_phys i` is `&kheap_tables[i]` less the base
  -- of the kernel, an address that the linker chooses.
  abbrev pub use_dir : (ℕ → ℕ) → ℕ → ℕ → ℕ
  use_dir dir i = update dir i (or_writable (set_page_frame (dir i) (table_phys i)))

  -- `while (cnt--)` of the second search, which enters each new directory as it reaches it.
  unfoldable pub mark_unused :
      ℕ → (pdoff offset : ℕ) → (ℕ → ℕ) → (ℕ → ℕ → ℕ) → (ℕ → ℕ) × (ℕ → ℕ → ℕ)
  mark_unused zero pdoff offset dir kt = (dir, kt)
  mark_unused (suc n) pdoff offset dir kt =
      let (pd, off, dir') =
        if leb 512 offset then (pdoff + 1, 0, use_dir dir (pdoff + 1)) else (pdoff, offset, dir) in
      mark_unused n pd (off + 1) dir' (update₂ kt pd off 3)

  -- `none`: the function prints a message and returns no value.
  unfoldable pub page_kernel_alloc4k : ℕ → Kernel → Option (ℕ × Kernel)
  page_kernel_alloc4k cnt k =
      elim (scan_dirs k.kheapdir k.kheap_tables cnt 0 512
        (record { pdoff = 0; offset = 0; counter = 0 })) [
          | some r ↦ some (
            heap_address r.pdoff r.offset,
            record k { kheap_tables = mark_run r.counter r.pdoff r.offset k.kheap_tables },
          )
          | none ↦ elim (scan_unused k.kheapdir cnt 0 512 0 0) [
            | none ↦ none
            | some pdoff ↦
                let (dir, kt) = mark_unused cnt pdoff 0 (use_dir k.kheapdir pdoff) k.kheap_tables in
                some (heap_address pdoff 0, record k { kheapdir = dir; kheap_tables = kt })
          ]
        ]
