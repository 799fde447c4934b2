-- ===== src/Ahci/Reading.antt =====
-- The memory that drivers/storage/ata/ahci/ahci.c `ahci_read` leaves.
use kernel_old.Base.{
  ℕ, zero, suc, ◌+◌, ◌-◌, ◌*◌, ◌/◌, ◌%◌, ◌^◌, ◌≤◌, ◌<◌, ◌≡◌, refl, ap, ap₂, ◌∙◌, ◌⊎◌, inl, inr,
  false, Option, none, some, arith, ltb, ltb→lt, Bool-cases, overlay, overlay-inside,
  overlay-outside,
}
use kernel_old.Ahci.{true, Command, Port, command_for, FromDisk, ahci_read}
use kernel_old.Ahci.Commands.{lba_of, count_of, command_for-fis, Answers, dma_access-issued}

-- What a controller does for READ DMA EXT: the bytes of the sectors asked for, at most the 8
-- that the buffer holds, come into it in order, where the command ends without an error.
unfoldable pub Reads : FromDisk → Type 0
Reads from_disk =
    (c : Command) (sectors : ℕ → ℕ → ℕ) (buf : ℕ → ℕ) (j : ℕ)
    → c.fis.command ≡ 0x25
    → count_of c.fis ≤ 8
    → j < 512 * count_of c.fis
    → from_disk true c sectors buf j ≡ sectors (lba_of c.fis + j / 512) (j % 512)

module _ (from_disk : FromDisk) (reads : Reads from_disk) (sectors : ℕ → ℕ → ℕ) where
  -- The `len` sectors from `off` on are in memory at `ptr`, and other memory is kept.
  unfoldable pub SectorsCopied : (after before : ℕ → ℕ) (ptr off len : ℕ) → Type 0
  SectorsCopied after before ptr off len =
      (a : ℕ)
      → (a < 512 * len → after (ptr + a) ≡ sectors (off + a / 512) (a % 512))
        × (a < ptr ⊎ ptr + 512 * len ≤ a → after a ≡ before a)

  -- What `ahci_read` gives.
  unfoldable pub ReadGives : (before : ℕ → ℕ) (ptr off len : ℕ) → Option (ℕ → ℕ) → Type 0
  ReadGives before ptr off len none = ⊥
  ReadGives before ptr off len (some after) = SectorsCopied after before ptr off len

  first_sector :
      (off len phys_buf : ℕ) (buf : ℕ → ℕ) (j : ℕ)
      → off + suc len ≤ 2 ^ 48
      → suc len ≤ 8
      → j < 512
      → from_disk true (command_for off (suc len) phys_buf false) sectors buf j ≡ sectors off j
  unfolding Reads
  first_sector off len phys_buf buf j low few lt =
      let c : Command = command_for off (suc len) phys_buf false in
      let (lba, count, name) =
        command_for-fis off (suc len) phys_buf false (omega (arith, low)) (omega (arith, few)) in
      reads c sectors buf j name (omega (arith, count, few)) (omega (arith, count, lt))
      ∙ ap₂ (λ (s i : ℕ). sectors s i) (omega (arith, lba, lt)) (omega (arith, lt))

  -- The first sector and those after it.
  next_sectors :
      (after before src : ℕ → ℕ) (ptr off len : ℕ)
      → ((j : ℕ) → j < 512 → src j ≡ sectors off j)
      → SectorsCopied after (overlay before src ptr 512) (ptr + 512) (off + 1) len
      → SectorsCopied after before ptr off (suc len)
  unfolding SectorsCopied
  next_sectors after before src ptr off len here rest a = (
    λ lt. elim (Bool-cases (ltb a 512)) [
      | inl near ↦
          (rest (ptr + a)).1 (inl (ground (arith, near)))
          ∙ overlay-inside before src ptr 512 a (ltb→lt a 512 near)
          ∙ here a (ltb→lt a 512 near)
          ∙ ap₂ (λ (s i : ℕ). sectors s i) (ground (arith, near)) (ground (arith, near))
      | inr far ↦
          ap after (ground (arith, far))
          ∙ (rest (a - 512)).0 (ground (arith, far, lt))
          ∙ ap₂ (λ (s i : ℕ). sectors s i) (ground (arith, far)) (ground (arith, far))
    ],
    outside,
  )
    where
      outside : a < ptr ⊎ ptr + 512 * suc len ≤ a → after a ≡ before a
      outside (inl lt) =
          (rest a).1 (inl (omega (arith, lt))) ∙ overlay-outside before src ptr 512 a (inl lt)
      outside (inr le) =
          (rest a).1 (inr (omega (arith, le)))
          ∙ overlay-outside before src ptr 512 a (inr (omega (arith, le)))

  next_gives :
      (before src : ℕ → ℕ) (ptr off len : ℕ) (o : Option (ℕ → ℕ))
      → ((j : ℕ) → j < 512 → src j ≡ sectors off j)
      → ReadGives (overlay before src ptr 512) (ptr + 512) (off + 1) len o
      → ReadGives before ptr off (suc len) o
  unfolding ReadGives
  next_gives before src ptr off len none here h = h
  next_gives before src ptr off len (some after) here h =
      next_sectors after before src ptr off len here h

  -- `ahci_read` of up to 8 sectors below sector `2 ^ 48`, where the port answers every
  -- access without an error and the controller reads: the sectors are in memory at `ptr` in order, and all other
  -- memory is kept.
  pub ahci_read-ReadGives :
      (fuel : ℕ) (ports : ℕ → Port) (phys_buf : ℕ)
      → ((k : ℕ) → Answers fuel (ports k))
      → (k ptr off len : ℕ) (buf mem : ℕ → ℕ) → off + len ≤ 2 ^ 48
      → len ≤ 8
      → ReadGives mem ptr off len
          (ahci_read fuel from_disk ports phys_buf sectors k ptr off len buf mem)
  unfolding ReadGives SectorsCopied ahci_read
  ahci_read-ReadGives fuel ports phys_buf answers k ptr off zero buf mem low few =
      λ a. (λ lt. absurd (omega (arith, lt)), λ out. refl)
  ahci_read-ReadGives fuel ports phys_buf answers k ptr off (suc len) buf mem low few =
      let e = dma_access-issued fuel (ports k) off (suc len) phys_buf false (answers k) few in
      let c : Command = command_for off (suc len) phys_buf false in
      let mem' : ℕ → ℕ = overlay mem (from_disk true c sectors buf) ptr 512 in
      rw (e, ahci_read)
        (next_gives mem (from_disk true c sectors buf) ptr off len
          (ahci_read fuel from_disk ports phys_buf sectors (k + 1) (ptr + 512) (off + 1) len
            (from_disk true c sectors buf) mem')
          (λ j lt. first_sector off len phys_buf buf j low few lt)
          (ahci_read-ReadGives fuel ports phys_buf answers (k + 1) (ptr + 512) (off + 1) len
            (from_disk true c sectors buf) mem' (omega (arith, low)) (omega (arith, few))))
