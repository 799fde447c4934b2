-- ===== src/Ahci/ReadBack.antt =====
-- Reading with drivers/storage/ata/ahci/ahci.c `ahci_read` what `ahci_write` has written.
use kernel_old.Base.{ℕ, ◌+◌, ◌*◌, ◌/◌, ◌%◌, ◌^◌, ◌≤◌, ◌<◌, ◌≡◌, ap, ◌∙◌, Option, none, some, arith}
use kernel_old.Ahci.{Port, FromDisk, ToDisk, ahci_read}
use kernel_old.Ahci.Commands.{Answers}
use kernel_old.Ahci.Reading.{Reads, SectorsCopied, ReadGives, ahci_read-ReadGives}
use kernel_old.Ahci.Writing.{Writes, SectorsStored, WriteGives}

-- A controller that reads and writes, and a port that answers every access without an error.
module _ (from_disk : FromDisk) (reads : Reads from_disk) (to_disk : ToDisk)
    (writes : Writes to_disk) (fuel : ℕ) (ports : ℕ → Port)
    (answers : (k : ℕ) → Answers fuel (ports k)) where
  -- The bytes at `into` in the memory that a read has left are those at `ptr`.
  pub SameBytes : (mem : ℕ → ℕ) (ptr into size : ℕ) → Option (ℕ → ℕ) → Type 0
  SameBytes mem ptr into size none = ⊥
  SameBytes mem ptr into size (some after) = (a : ℕ) → a < size → after (into + a) ≡ mem (ptr + a)

  -- What a read of `len` sectors from `off` on gives after a write has given `o`.
  pub ReadBack :
      (mem other buf : ℕ → ℕ) (phys_buf k ptr into off len : ℕ) → Option (ℕ → ℕ → ℕ) → Type 0
  ReadBack mem other buf phys_buf k ptr into off len none = ⊥
  ReadBack mem other buf phys_buf k ptr into off len (some sectors) =
      SameBytes mem ptr into (512 * len)
        (ahci_read fuel from_disk ports phys_buf sectors k into off len buf other)

  same_bytes :
      (mem other : ℕ → ℕ) (ptr into off len : ℕ) (before sectors : ℕ → ℕ → ℕ)
      → (o : Option (ℕ → ℕ)) → SectorsStored to_disk writes mem sectors before ptr off len
      → ReadGives from_disk reads sectors other into off len o
      → SameBytes mem ptr into (512 * len) o
  unfolding SameBytes ReadGives SectorsCopied SectorsStored
  same_bytes mem other ptr into off len before sectors none stored read = read
  same_bytes mem other ptr into off len before sectors (some after) stored read = λ a lt.
      (read a).0 lt
      ∙ (stored (off + a / 512) (a % 512) (omega arith)).0 (omega arith) (omega (arith, lt))
      ∙ ap mem (omega arith)

  read_back :
      (mem other buf : ℕ → ℕ) (phys_buf k ptr into off len : ℕ) (before : ℕ → ℕ → ℕ)
      → (o : Option (ℕ → ℕ → ℕ)) → off + len ≤ 2 ^ 48
      → len ≤ 8
      → WriteGives to_disk writes mem before ptr off len o
      → ReadBack mem other buf phys_buf k ptr into off len o
  unfolding ReadBack WriteGives
  read_back mem other buf phys_buf k ptr into off len before none low few h = h
  read_back mem other buf phys_buf k ptr into off len before (some sectors) low few h =
      same_bytes mem other ptr into off len before sectors
        (ahci_read fuel from_disk ports phys_buf sectors k into off len buf other) h
        (ahci_read-ReadGives from_disk reads sectors fuel ports phys_buf answers k into off len buf
          other low few)
