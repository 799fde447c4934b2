-- ===== src/Input/Tests.antt =====
-- Runs of the input queues, and the theorems at concrete inputs.
use kernel_old.Base.{ℕ, ◌+◌, ◌≡◌, refl, none, [], ◌∷◌, arith}
use kernel_old.Input.{KeyQueue, kb_init, kb_get_key, MouseState, packet_of, mouse_bytes}
use kernel_old.Input.Mouse.{none_left, stray, Pops, mouse_bytes_lem}

abbrev typed : KeyQueue
typed = record { keys = λ i. i + 30; queued = 2 }

abbrev zeros : ℕ → ℕ
zeros _ = 0

kb_init-empty : kb_get_key (kb_init typed) ≡ none
unfolding kb_init kb_get_key
kb_init-empty = refl

abbrev ones : ℕ → ℕ
ones _ = 1

abbrev mouse : MouseState
mouse = record {
  data0 = 0;
  data1 = 0;
  data2 = 0;
  cycle = 0;
  packets = λ _. record { btns = 0; xmov = 0; ymov = 0 };
  queued = 0;
}

-- One stray byte, then a packet with the left button, 5 to the right and 255 up.
mouse_bytes_lem_example : Pops (packet_of 9 5 1) 0 (mouse_bytes (4 ∷ 9 ∷ 5 ∷ 1 ∷ []) mouse)
mouse_bytes_lem_example =
    mouse_bytes_lem (4 ∷ []) mouse 9 5 1 (stray 4 [] refl none_left) refl (omega arith) refl
