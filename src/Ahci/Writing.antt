-- ===== src/Ahci/Writing.antt =====
-- The sectors that drivers/storage/ata/ahci/ahci.c `ahci_write` leaves.
use kernel_old.Base.{
  ℕ, zero, suc, ◌+◌, ◌-◌, ◌*◌, ◌^◌, ◌≤◌, ◌<◌, ◌≡◌, refl, sym, ap, subst, ◌∙◌, ◌⊎◌, inl, inr, true,
  Option, none, some, arith, ◌==◌, ==_iff, Bool-cases, overlay, overlay-inside,
}
use kernel_old.Ahci.{Command, Port, command_for, ToDisk, ahci_write}
use kernel_old.Ahci.Commands.{lba_of, count_of, command_for-fis, Answers, dma_access-issued}

-- What a controller does for WRITE DMA EXT: the bytes of the buffer come into the sectors asked for,
-- from 1 up to the 8 that it holds, in order, and all other sectors are kept, where the command ends
-- without an error.
unfoldable pub Writes : ToDisk → Type 0
Writes to_disk =
    (c : Command) (buf : ℕ → ℕ) (sectors : ℕ → ℕ → ℕ) (s j : ℕ)
    → c.fis.command ≡ 0x35
    → 0 < count_of c.fis
    → count_of c.fis ≤ 8
    → j < 512
    → (lba_of c.fis ≤ s
        → s < lba_of c.fis + count_of c.fis
        → to_disk true c buf sectors s j ≡ buf ((s - lba_of c.fis) * 512 + j))
      × (s < lba_of c.fis ⊎ lba_of c.fis + count_of c.fis ≤ s
          → to_disk true c buf sectors s j ≡ sectors s j)

module _ (to_disk : ToDisk) (writes : Writes to_disk) (mem : ℕ → ℕ) where
  -- The `len` sectors from `off` on are those of memory from `ptr` on, and the others are kept.
  unfoldable pub SectorsStored : (after before : ℕ → ℕ → ℕ) (ptr off len : ℕ) → Type 0
  SectorsStored after before ptr off len =
      (s j : ℕ)
      → j < 512
      → (off ≤ s → s < off + len → after s j ≡ mem (ptr + (s - off) * 512 + j))
        × (s < off ⊎ off + len ≤ s → after s j ≡ before s j)

  -- What `ahci_write` gives.
  unfoldable pub WriteGives : (before : ℕ → ℕ → ℕ) (ptr off len : ℕ) → Option (ℕ → ℕ → ℕ) → Type 0
  WriteGives before ptr off len none = ⊥
  WriteGives before ptr off len (some after) = SectorsStored after before ptr off len

  module _ (phys_buf ptr off len : ℕ) (buf : ℕ → ℕ) (before : ℕ → ℕ → ℕ) where
    -- The sectors after the first command of `ahci_write`.
    first_stored : ℕ → ℕ → ℕ
    first_stored =
        to_disk true (command_for off (suc len) phys_buf true)
          (overlay buf (λ j. mem (ptr + j)) 0 512) before

    first_stored-here :
        (j : ℕ)
        → off + suc len ≤ 2 ^ 48
        → suc len ≤ 8
        → j < 512
        → first_stored off j ≡ mem (ptr + j)
    unfolding first_stored Writes
    first_stored-here j low few lt =
        let c : Command = command_for off (suc len) phys_buf true in
        let buf' : ℕ → ℕ = overlay buf (λ j. mem (ptr + j)) 0 512 in
        let (lba, count, name) =
          command_for-fis off (suc len) phys_buf true (omega (arith, low)) (omega (arith, few)) in
        (writes c buf' before off j name (omega (arith, count)) (omega (arith, count, few)) lt).0
          (omega (arith, lba)) (omega (arith, lba, count))
        ∙ ap buf' (omega (arith, lba))
        ∙ overlay-inside buf (λ j. mem (ptr + j)) 0 512 j lt

    first_stored-outside :
        (s j : ℕ)
        → off + suc len ≤ 2 ^ 48
        → suc len ≤ 8
        → j < 512
        → s < off ⊎ off + suc len ≤ s
        → first_stored s j ≡ before s j
    unfolding first_stored Writes
    first_stored-outside s j low few lt out =
        let c : Command = command_for off (suc len) phys_buf true in
        let buf' : ℕ → ℕ = overlay buf (λ j. mem (ptr + j)) 0 512 in
        let (lba, count, name) =
          command_for-fis off (suc len) phys_buf true (omega (arith, low)) (omega (arith, few)) in
        (writes c buf' before s j name (omega (arith, count)) (omega (arith, count, few)) lt).1
          (elim out [
            | inl below ↦ inl (omega (arith, lba, below))
            | inr above ↦ inr (omega (arith, lba, count, above))
          ])

    -- The first sector and those after it.
    next_stored :
        (o : Option (ℕ → ℕ → ℕ))
        → off + suc len ≤ 2 ^ 48
        → suc len ≤ 8
        → WriteGives first_stored (ptr + 512) (off + 1) len o
        → WriteGives before ptr off (suc len) o
    unfolding WriteGives SectorsStored
    next_stored none low few h = h
    next_stored (some after) low few rest = λ s j lt. (
      λ lo hi. elim (Bool-cases (s == off)) [
        | inl e ↦
            let same : s ≡ off = (==_iff s off).0 e in
            (rest s j lt).1 (inl (omega (arith, same)))
            ∙ subst (λ x. first_stored x j ≡ mem (ptr + (x - off) * 512 + j)) (sym same)
                (first_stored-here j low few lt ∙ ap mem (omega arith))
        | inr e ↦
            (rest s j lt).0 (ground (arith, e, lo)) (omega (arith, hi))
            ∙ ap mem (ground (arith, e, lo))
      ],
      λ out.
          (rest s j lt).1 (elim out [
            | inl below ↦ inl (omega (arith, below))
            | inr above ↦ inr (omega (arith, above))
          ])
          ∙ first_stored-outside s j low few lt out,
    )

  -- `ahci_write` of up to 8 sectors below sector `2 ^ 48`, where the port answers every
  -- access without an error and the controller writes: the sectors are those of memory from `ptr` on, in order, and
  -- all other sectors are kept, although each command but the last also writes sectors behind the
  -- one that the buffer holds.
  pub ahci_write-WriteGives :
      (fuel : ℕ) (ports : ℕ → Port) (phys_buf : ℕ)
      → ((k : ℕ) → Answers fuel (ports k))
      → (k ptr off len : ℕ) (buf : ℕ → ℕ) (sectors : ℕ → ℕ → ℕ) → off + len ≤ 2 ^ 48
      → len ≤ 8
      → WriteGives sectors ptr off len
          (ahci_write fuel to_disk ports phys_buf mem k ptr off len buf sectors)
  unfolding WriteGives SectorsStored ahci_write first_stored
  ahci_write-WriteGives fuel ports phys_buf answers k ptr off zero buf sectors low few =
      λ s j lt. (λ lo hi. absurd (omega (arith, lo, hi)), λ out. refl)
  ahci_write-WriteGives fuel ports phys_buf answers k ptr off (suc len) buf sectors low few =
      let e = dma_access-issued fuel (ports k) off (suc len) phys_buf true (answers k) few in
      let buf' : ℕ → ℕ = overlay buf (λ j. mem (ptr + j)) 0 512 in
      let sectors' : ℕ → ℕ → ℕ = first_stored phys_buf ptr off len buf sectors in
      rw (e, ahci_write)
        (next_stored phys_buf ptr off len buf sectors
          (ahci_write fuel to_disk ports phys_buf mem (k + 1) (ptr + 512) (off + 1) len buf'
            sectors')
          low few
          (ahci_write-WriteGives fuel ports phys_buf answers (k + 1) (ptr + 512) (off + 1) len buf'
            sectors' (omega (arith, low)) (omega (arith, few))))
