-- ===== src/Syscall.antt =====
-- The calls on file descriptors and on the working directory in sys/syscall/syscall.c, with
-- `vfs_open` and `vfs_close` of fs/vfs/vfs.c on a node without an operation `close`. A
-- pointer is a number, and a call that returns -1 returns `2 ^ 64 - 1`.
pub mod Table
pub mod Directory
mod Tests
use kernel_old.Base.{
  ℕ, zero, suc, ◌+◌, ◌-◌, ◌*◌, ◌/◌, ◌%◌, ◌^◌, ◌≤◌, ◌<◌, min, bit_and, bit_or, bit_xor, ◌≡◌, refl,
  sym, ap, ap₂, subst, ◌∙◌, ◌≢◌, ◌↔◌, ◌⊎◌, inl, inr, Bool, true, false, not, ◌&&◌, ◌||◌, Option,
  none, some, List, [], ◌∷◌, ◌++◌, map, arith, ltb, leb, ◌==◌, if◌then◌else◌, ltb→lt, lt→ltb,
  leb→le, ==_iff, ==_refl, Bool-cases, Option-cases, length, get_elem?, set, length-append,
  append_assoc, update_self, update, every, every-holds,
}

-- `fs_fd_t`
pub record Fd : Type 0 where
  pub node : ℕ
  pub pos : ℕ
  pub flags : ℕ
  pub mode : ℕ

-- What the calls see of a process: the list of its descriptors, the descriptors in memory, and the
-- pointers that have been passed to `kfree`, the last one first.
pub record Files : Type 0 where
  pub file_descs : List ℕ
  pub fds : ℕ → Fd
  pub freed : List ℕ

-- `int fdnum` is negative from `2 ^ 31` on.
unfoldable pub procgetfd : (fdnum : ℕ) → Files → Option ℕ
procgetfd fdnum s =
    if leb (2 ^ 31) fdnum || leb (length s.file_descs) fdnum
    then none
    else get_elem? s.file_descs fdnum

-- The operation `open` of a node: what it returns, and the descriptors after it.
abbrev pub FileOpen : Type 0
FileOpen = (node flags mode : ℕ) → Files → ℕ × Files

-- `vfs_open`, where `file->open` is an argument, `none` if it is NULL, and `kmalloc` gives `fd`.
unfoldable pub vfs_open : Option FileOpen → (fd node flags mode : ℕ) → Files → ℕ × Files
vfs_open (some file_open) fd node flags mode s = file_open node flags mode s
vfs_open none fd node flags mode s = (
  fd,
  record s { fds = update s.fds fd (record { node = node; pos = 0; flags = flags; mode = mode }) },
)

unfoldable pub vfs_close : (file : ℕ) → Files → Files
vfs_close file s = record s { freed = file ∷ s.freed }

-- `sys_open`, after the path has been resolved to a node without an operation `open`, which is never
-- set.
unfoldable pub sys_open : (node : Option ℕ) (fd flags mode : ℕ) → Files → ℕ × Files
sys_open none fd flags mode s = (2 ^ 64 - 1, s)
sys_open (some node) fd flags mode s =
    let (file, opened) = vfs_open none fd node flags mode s in
    let descs : List ℕ = opened.file_descs ++ (file ∷ []) in
    ((length descs + (2 ^ 32 - 1)) % 2 ^ 32, record opened { file_descs = descs })

-- `sys_read` and `sys_write`, where `transfer node off len` is what the node's operation returns.
unfoldable pub sys_transfer : (transfer : (node off len : ℕ) → ℕ) (fdno len : ℕ) → Files → ℕ
sys_transfer transfer fdno len s = elim (procgetfd fdno s) [
  | none ↦ 2 ^ 64 - 1
  | some fd ↦ transfer ((s.fds fd).node) 0 len
]

unfoldable pub sys_close : (fdno : ℕ) → Files → ℕ × Files
sys_close fdno s = elim (procgetfd fdno s) [
  | none ↦ (2 ^ 64 - 1, s)
  | some fd ↦ let closed = vfs_close fd s in (0, record closed { freed = fd ∷ closed.freed })
]

-- The position that `sys_lseek` sets, `size` being that of the node.
unfoldable pub seek_to : (pos size off whence : ℕ) → ℕ
seek_to pos size off whence =
    if whence == 1
    then off
    else if whence == 2
    then (pos + off) % 2 ^ 64
    else if whence == 3
    then (size + off) % 2 ^ 64
    else pos

-- `sys_lseek`; nothing where it goes through the null pointer.
unfoldable pub sys_lseek : (size_of : ℕ → ℕ) (fdno off whence : ℕ) → Files → Option (ℕ × Files)
sys_lseek size_of fdno off whence s = elim (procgetfd fdno s) [
  | none ↦ none
  | some fd ↦
      let old = s.fds fd in
      let new : Fd = record {
        node = old.node;
        pos = seek_to old.pos (size_of old.node) off whence;
        flags = old.flags;
        mode = old.mode;
      } in
      some (0, record s { fds = update s.fds fd new })
]
