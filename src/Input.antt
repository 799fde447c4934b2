-- ===== src/Input.antt =====
-- The PS/2 keyboard and mouse: drivers/input/keyboard/ps2kb.c and drivers/input/mouse/ps2mouse.c.
-- `queued` is the index of the last entry plus one, so 0 stands for the -1 of an empty queue. The
-- byte that `inb(0x60)` reads is an argument. A store outside an array is `none`.
mod Keyboard
mod ReadKeys
mod Mouse
mod Tests
use kernel_old.Base.{
  ℕ, zero, suc, ◌+◌, ◌-◌, ◌*◌, ◌/◌, ◌%◌, ◌^◌, ◌≤◌, ◌<◌, min, bit_and, bit_or, bit_xor, ◌≡◌, refl,
  sym, ap, ap₂, subst, ◌∙◌, ◌≢◌, ◌↔◌, ◌⊎◌, inl, inr, Bool, true, false, not, ◌&&◌, ◌||◌, Option,
  none, some, List, [], ◌∷◌, ◌++◌, map, arith, ltb, leb, ◌==◌, if◌then◌else◌, ltb→lt, lt→ltb,
  leb→le, ==_iff, ==_refl, Bool-cases, Option-cases, length, get_elem?, set, length-append,
  append_assoc, update_self, update,
}

-- `KEY_QUEUE_SIZE` and `MOUSE_QUEUE_SIZE`
abbrev pub queue_size : ℕ
queue_size = 512

pub record KeyQueue : Type 0 where
  pub keys : ℕ → ℕ
  pub queued : ℕ

unfoldable pub kb_init : KeyQueue → KeyQueue
kb_init q = record q { queued = 0 }

-- The guard `queue_end > KEY_QUEUE_SIZE - 1`, then the store at `++queue_end`.
unfoldable pub kb_interrupt_handler : (scan_code : ℕ) → KeyQueue → Option KeyQueue
kb_interrupt_handler scan q =
    if ltb queue_size q.queued
    then some q
    else if ltb q.queued queue_size
    then some (record { keys = update q.keys q.queued scan; queued = suc q.queued })
    else none

-- The last key, and the queue without it.
unfoldable pub kb_get_key : KeyQueue → Option (ℕ × KeyQueue)
kb_get_key q = elim q.queued [ zero ↦ none | suc n ↦ some (q.keys n, record q { queued = n }) ]

-- A 32-bit store through a pointer, low byte first.
unfoldable pub store_uint32 : (ptr v : ℕ) → (ℕ → ℕ) → ℕ → ℕ
store_uint32 ptr v m =
    update
      (update (update (update m ptr (v % 2 ^ 8)) (ptr + 1) (v / 2 ^ 8 % 2 ^ 8)) (ptr + 2)
        (v / 2 ^ 16 % 2 ^ 8))
      (ptr + 3) (v / 2 ^ 24 % 2 ^ 8)

-- `kb_read`: the count of keys read, the queue and the memory. The buffer advances by one byte for
-- each key, and each key is stored as 32 bits.
unfoldable pub kb_read : (ptr size : ℕ) → KeyQueue → (ℕ → ℕ) → ℕ × KeyQueue × (ℕ → ℕ)
kb_read ptr zero q m = (0, q, m)
kb_read ptr (suc size) q m = elim (kb_get_key q) [
  | none ↦ (0, q, m)
  | some (key, q') ↦
      let rest = kb_read (ptr + 1) size q' (store_uint32 ptr key m) in (suc rest.0, rest.1, rest.2)
]

-- `mouse_packet_t`; `scroll` is never written. The movements are two's complement bytes.
pub record Packet : Type 0 where
  pub btns : ℕ
  pub xmov : ℕ
  pub ymov : ℕ

pub record MouseState : Type 0 where
  pub data0 : ℕ
  pub data1 : ℕ
  pub data2 : ℕ
  pub cycle : ℕ
  pub packets : ℕ → Packet
  pub queued : ℕ

unfoldable pub packet_of : (b0 b1 b2 : ℕ) → Packet
packet_of b0 b1 b2 = record { btns = bit_and b0 7; xmov = b1; ymov = (2 ^ 8 - b2) % 2 ^ 8 }

-- The store at `++packet_end`, and the reset where the index is past `MOUSE_QUEUE_SIZE`.
unfoldable pub push_packet : Packet → MouseState → Option MouseState
push_packet p s =
    if ltb s.queued queue_size
    then (let s' : MouseState = record s {
      packets = update s.packets s.queued p;
      queued = suc s.queued;
    } in
        some (if ltb (queue_size + 1) s'.queued then record s' { queued = 0 } else s'))
    else none

unfoldable pub mouse_handler : (byte : ℕ) → MouseState → Option MouseState
mouse_handler b s = elim s.cycle [
  | zero ↦
      some (if bit_and b 8 == 0 then record s { data0 = b } else record s { data0 = b; cycle = 1 })
  | suc zero ↦ some (record s { data1 = b; cycle = 2 })
  | suc (suc zero) ↦ push_packet (packet_of s.data0 s.data1 b) (record s { data2 = b; cycle = 0 })
  | suc (suc (suc _)) ↦ some (record s { cycle = 0 })
]

unfoldable pub mouse_get_packet : MouseState → Option (Packet × MouseState)
mouse_get_packet s = elim s.queued [
  | zero ↦ none
  | suc n ↦ some (s.packets n, record s { queued = n })
]

-- The bytes of several interrupts in turn.
unfoldable pub mouse_bytes : List ℕ → MouseState → Option MouseState
mouse_bytes [] s = some s
mouse_bytes (b ∷ bs) s = elim (mouse_handler b s) [ none ↦ none | some s' ↦ mouse_bytes bs s' ]
