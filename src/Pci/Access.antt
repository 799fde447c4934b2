-- ===== src/Pci/Access.antt =====
-- Reading back what drivers/pci/pci.c writes into a configuration space.
use kernel_old.Base.{
  true, ℕ, zero, suc, ◌+◌, ◌-◌, ◌*◌, ◌/◌, ◌%◌, ◌^◌, ◌<◌, bit_or, ◌≡◌, refl, sym, ap, subst, ◌∙◌,
  ◌≢◌, inl, inr, false, ◌&&◌, arith, ◌==◌, if◌then◌else◌, ==_iff, Bool-cases, shift_left,
  bit_or-shift_left, bit_or-shift_right,
}
use kernel_old.Pci.{Ports, IsConfig, cfg_addr, word_shift, pci_cfg_readw, pci_cfg_writew}

-- A register of a function of a device of a bus.
abbrev pub Place : (bus slot func off : ℕ) → Type 0
Place bus slot func off = (bus < 256) × (slot < 32) × (func < 8) × (off < 256)

pub cfg_addr-fields :
    (bus slot func off : ℕ)
    → Place bus slot func off
    → cfg_addr bus slot func off
      ≡ 2 ^ 31 + bus * 2 ^ 16 + slot * 2 ^ 11 + func * 2 ^ 8 + off / 4 * 4
unfolding cfg_addr
cfg_addr-fields bus slot func off (b, s, f, o) =
    let e1 : bit_or (shift_left bus 16) (shift_left slot 11) ≡ shift_left (bus * 32 + slot) 11 =
      bit_or-shift_left 16 bus (shift_left slot 11) (omega (arith, s)) ∙ omega arith in
    let e2 : bit_or (shift_left (bus * 32 + slot) 11) (shift_left func 8)
        ≡ shift_left ((bus * 32 + slot) * 8 + func) 8 =
      bit_or-shift_left 11 (bus * 32 + slot) (shift_left func 8) (omega (arith, f)) ∙ omega arith in
    let e3 = bit_or-shift_left 8 ((bus * 32 + slot) * 8 + func) (off / 4 * 4) (omega (arith, o)) in
    let e4 =
      bit_or-shift_right 31 1 (shift_left ((bus * 32 + slot) * 8 + func) 8 + off / 4 * 4)
        (omega (arith, b, s, f, o)) in
    rw (e1, e2, e3, e4) (omega arith)

-- A word put into a register of 32 bits, and the words of the result.
word_put :
    (old v w w' : ℕ)
    → v < 2 ^ 16
    → w < 2
    → w' < 2
    → (old - old / 2 ^ (w * 16) % 2 ^ 16 * 2 ^ (w * 16) + v * 2 ^ (w * 16)) / 2 ^ (w' * 16) % 2 ^ 16
      ≡ (if w == w' then v else old / 2 ^ (w' * 16) % 2 ^ 16)
word_put old v zero zero lt h h' = omega (arith, lt)
word_put old v zero (suc zero) lt h h' = omega (arith, lt)
word_put old v (suc zero) zero lt h h' = omega (arith, lt)
word_put old v (suc zero) (suc zero) lt h h' = omega (arith, lt)
word_put old v (suc (suc w)) w' lt h h' = absurd (omega (arith, h))
word_put old v zero (suc (suc w')) lt h h' = absurd (omega (arith, h'))
word_put old v (suc zero) (suc (suc w')) lt h h' = absurd (omega (arith, h'))

-- Two places with one address are in one register, and the words there tell them apart.
same-Place :
    (bus slot func off bus' slot' func' off' : ℕ)
    → Place bus slot func off
    → Place bus' slot' func' off'
    → cfg_addr bus' slot' func' off' ≡ cfg_addr bus slot func off
    → ((bus == bus') && (slot == slot') && (func == func') && (off / 2 == off' / 2))
      ≡ (off % 4 / 2 == off' % 4 / 2)
same-Place bus slot func off bus' slot' func' off' h h' e =
    let (b, s, f, o) = h in
    let (b', s', f', o') = h' in
    let fields = cfg_addr-fields bus slot func off h in
    let fields' = cfg_addr-fields bus' slot' func' off' h' in
    let x : bus ≡ bus' = omega (arith, e, fields, fields', b, s, f, o, b', s', f', o') in
    let y : slot ≡ slot' = omega (arith, e, fields, fields', x, s, f, o, s', f', o') in
    let z : func ≡ func' = omega (arith, e, fields, fields', x, y, f, o, f', o') in
    let w : off / 4 ≡ off' / 4 = omega (arith, e, fields, fields', x, y, z) in
    ground (arith, x, y, z, w)

other-Place :
    (bus slot func off bus' slot' func' off' : ℕ)
    → Place bus slot func off
    → Place bus' slot' func' off'
    → cfg_addr bus' slot' func' off' ≢ cfg_addr bus slot func off
    → ((bus == bus') && (slot == slot') && (func == func') && (off / 2 == off' / 2)) ≡ false
other-Place bus slot func off bus' slot' func' off' h h' ne =
    let fields = cfg_addr-fields bus slot func off h in
    let fields' = cfg_addr-fields bus' slot' func' off' h' in ground (arith, fields, fields', ne)

module _ {S : Type 0} (p : Ports S) (q : IsConfig p) where
  -- What a word reads from the registers of a state.
  abbrev pub word_of : S → (bus slot func off : ℕ) → ℕ
  word_of s bus slot func off =
      q.register s (cfg_addr bus slot func off) / 2 ^ word_shift off % 2 ^ 16

  pub pci_cfg_readw-word :
      (bus slot func off : ℕ) (s : S)
      → ((pci_cfg_readw p bus slot func off s).0 ≡ word_of s bus slot func off)
        × ((a : ℕ) → q.register (pci_cfg_readw p bus slot func off s).1 a ≡ q.register s a)
  unfolding pci_cfg_readw
  pci_cfg_readw-word bus slot func off s =
      let a : ℕ = cfg_addr bus slot func off in
      let here : p.in_data (p.out_addr a s) ≡ q.register s a =
        q.in_data-register (p.out_addr a s)
        ∙ ap (q.register (p.out_addr a s)) (q.selected-out_addr a s)
        ∙ q.register-out_addr a s a in
      (ap (λ x. x / 2 ^ word_shift off % 2 ^ 16) here, λ b. q.register-out_addr a s b)

  -- The registers after a word has been written to a plain one.
  register-writew :
      (bus slot func off v a : ℕ) (s : S)
      → q.plain (cfg_addr bus slot func off) ≡ true
      → q.register (pci_cfg_writew p bus slot func off v s) a ≡ (
          if a == cfg_addr bus slot func off
          then q.register s (cfg_addr bus slot func off)
            - word_of s bus slot func off * 2 ^ word_shift off
            + v * 2 ^ word_shift off
          else q.register s a)
  unfolding pci_cfg_writew
  register-writew bus slot func off v a s plain =
      let b : ℕ = cfg_addr bus slot func off in
      let s' : S = p.out_addr b s in
      let old : p.in_data s' ≡ q.register s b =
        q.in_data-register s'
        ∙ ap (q.register s') (q.selected-out_addr b s)
        ∙ q.register-out_addr b s b in
      q.register-out_data _ s' a
        (subst (λ x. q.plain x ≡ true) (sym (q.selected-out_addr b s)) plain)
      ∙ rw (q.selected-out_addr b s, old, q.register-out_addr b s a) refl

  -- In a configuration space, after a word has been written to a plain register of a function (one
  -- that reads as it was written, and whose writing changes no other register), reading that word
  -- gives it, and reading any other word of any function, the other word of that register included,
  -- gives what it gave before.
  pub pci_cfg_readw-pci_cfg_writew :
      (bus slot func off v bus' slot' func' off' : ℕ) (s : S)
      → Place bus slot func off
      → Place bus' slot' func' off'
      → q.plain (cfg_addr bus slot func off) ≡ true
      → v < 2 ^ 16
      → (pci_cfg_readw p bus' slot' func' off' (pci_cfg_writew p bus slot func off v s)).0 ≡ (
          if (bus == bus') && (slot == slot') && (func == func') && (off / 2 == off' / 2)
          then v
          else (pci_cfg_readw p bus' slot' func' off' s).0)
  pci_cfg_readw-pci_cfg_writew bus slot func off v bus' slot' func' off' s h h' plain lt =
      let a : ℕ = cfg_addr bus slot func off in
      let a' : ℕ = cfg_addr bus' slot' func' off' in
      let written : S = pci_cfg_writew p bus slot func off v s in
      (pci_cfg_readw-word bus' slot' func' off' written).0
      ∙ ap (λ x. x / 2 ^ word_shift off' % 2 ^ 16) (register-writew bus slot func off v a' s plain)
      ∙ elim (Bool-cases (a' == a)) [
        | inl e ↦
            let same : a' ≡ a = (==_iff a' a).0 e in
            rw (e, same-Place bus slot func off bus' slot' func' off' h h' same)
              (word_put (q.register s a) v (off % 4 / 2) (off' % 4 / 2) lt (omega arith)
                  (omega arith)
                ∙ ap (λ x. if off % 4 / 2 == off' % 4 / 2 then v else x)
                    (ap (λ y. q.register s y / 2 ^ word_shift off' % 2 ^ 16) (sym same)
                      ∙ sym (pci_cfg_readw-word bus' slot' func' off' s).0))
        | inr e ↦
            rw
              (
                e,
                other-Place bus slot func off bus' slot' func' off' h h'
                    (λ same. ground (arith, e, same)),
              )
              (sym (pci_cfg_readw-word bus' slot' func' off' s).0)
      ]
