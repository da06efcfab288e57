-- ===== src/Mm/User.antt =====
-- Copies between the kernel and an address space of a task, arch/x86/mm/user.c. A page of the task is
-- mapped into the kernel at its own address while its bytes are copied. A buffer of the kernel is the
-- list of its bytes.
use ygg_kernel.Base.{
  Bool, List, Option, [], add32, align_up, drop, false, has_flag, if◌then◌else◌, length, ltb, none,
  some, sub32, suc, take, true, update, zero, ℕ, ◌%◌, ◌*◌, ◌++◌, ◌+◌, ◌-◌, ◌/◌, ◌==◌, ◌^◌, ◌||◌,
  ◌∷◌,
}
use ygg_kernel.Mm.Map.{flg_nophys, map_range_pages, page_base, translate, umap_range}
use ygg_kernel.Mm.Phys.{flg_ps, naddr}
use ygg_kernel.Mm.Pool.{MmState}

pub read_bytes : (ℕ → ℕ) → ℕ → ℕ → List ℕ
read_bytes ram a zero = []
read_bytes ram a (suc n) = ram a ∷ read_bytes ram (a + 1) n

pub write_bytes : (ℕ → ℕ) → ℕ → List ℕ → (ℕ → ℕ)
write_bytes ram a [] = ram
write_bytes ram a (b ∷ bs) = write_bytes (update ram a b) (a + 1) bs

-- The page of the round `i`, and its first byte and end that the copy of `count` bytes at `start`
-- takes.
abbrev pub page_of : ℕ → ℕ → ℕ
page_of start i = (page_base start + i * 0x1000) % 2 ^ 32

abbrev pub piece_start : ℕ → ℕ → ℕ
piece_start start page = if ltb page start then start - page else 0

abbrev pub piece_end : ℕ → ℕ → ℕ → ℕ
piece_end start count page =
    let end = sub32 (add32 start count) page in if ltb 0x1000 end then 0x1000 else end

-- The number of rounds of the two copies.
abbrev pub page_rounds : ℕ → ℕ → ℕ
page_rounds start count = sub32 (align_up (add32 start count) 0x1000) (page_base start) / 0x1000

-- The task's page is mapped into the kernel; the result is the address of its first byte in memory.
pub open_window : ℕ → ℕ → MmState → Option (ℕ × MmState)
open_window pd page s = elim (translate pd page s) [
  | none ↦ none
  | some (phys, flags) ↦
      if phys == naddr || has_flag flags flg_ps
      then none
      else elim (map_range_pages s.kernel page (phys ∷ []) 2 s) [
        | none ↦ none
        | some t ↦ elim (translate s.kernel page t) [
          | none ↦ none
          | some (window, _) ↦ some (window, t)
        ]
      ]
]

abbrev pub close_window : ℕ → MmState → Option MmState
close_window page s = umap_range s.kernel page 1 flg_nophys s

-- One round of mm_memcpy_user_to_kernel: the bytes that it copies.
pub copy_in : ℕ → ℕ → ℕ → ℕ → MmState → Option (List ℕ × MmState)
copy_in pd page first end s = elim (open_window pd page s) [
  | none ↦ none
  | some (window, t) ↦ elim (close_window page t) [
    | none ↦ none
    | some u ↦ some (read_bytes t.ram (window + first) (end - first), u)
  ]
]

-- Its loop, `n` rounds from round `i` on.
pub user_to_kernel_from : ℕ → ℕ → ℕ → ℕ → ℕ → MmState → Option (List ℕ × MmState)
user_to_kernel_from zero i pd src count s = some ([], s)
user_to_kernel_from (suc n) i pd src count s =
    let page = page_of src i in
    elim (copy_in pd page (piece_start src page) (piece_end src count page) s) [
      | none ↦ none
      | some (bytes, t) ↦ elim (user_to_kernel_from n (i + 1) pd src count t) [
        | none ↦ none
        | some (rest, u) ↦ some (bytes ++ rest, u)
      ]
    ]

-- mm_memcpy_user_to_kernel
pub user_to_kernel : ℕ → ℕ → ℕ → MmState → Option (List ℕ × MmState)
user_to_kernel pd src count s = user_to_kernel_from (page_rounds src count) 0 pd src count s

-- One round of mm_memcpy_kernel_to_user.
pub copy_out : ℕ → ℕ → ℕ → List ℕ → MmState → Option MmState
copy_out pd page first bytes s = elim (open_window pd page s) [
  | none ↦ none
  | some (window, t) ↦
      close_window page (record t { ram = write_bytes t.ram (window + first) bytes })
]

-- Its loop; `src` is what is left of the kernel's buffer.
pub kernel_to_user_from : ℕ → ℕ → ℕ → ℕ → List ℕ → ℕ → MmState → Option MmState
kernel_to_user_from zero i pd dst src count s = some s
kernel_to_user_from (suc n) i pd dst src count s =
    let page = page_of dst i in
    let first = piece_start dst page in
    let len = piece_end dst count page - first in
    elim (copy_out pd page first (take len src) s) [
      | none ↦ none
      | some t ↦ kernel_to_user_from n (i + 1) pd dst (drop len src) count t
    ]

-- mm_memcpy_kernel_to_user
pub kernel_to_user : ℕ → ℕ → List ℕ → ℕ → MmState → Option MmState
kernel_to_user pd dst src count s = kernel_to_user_from (page_rounds dst count) 0 pd dst src count s

-- The inner loop of mm_strncpy_user_to_kernel over the bytes of a page, with room for `room` bytes
-- more: what is copied, and whether it was ended, by a terminator or by the limit.
pub take_string : List ℕ → ℕ → List ℕ × Bool
take_string [] room = ([], false)
take_string (c ∷ bytes) room =
    let rest = take_string bytes (room - 1) in
    if c == 0 || (room == 1) then (0 ∷ [], true) else (c ∷ rest.0, rest.1)

-- Its outer loop.
pub strncpy_from_user : ℕ → ℕ → ℕ → ℕ → ℕ → ℕ → MmState → Option (List ℕ × MmState)
strncpy_from_user zero i pd src count room s = some (0 ∷ [], s)
strncpy_from_user (suc n) i pd src count room s =
    let page = page_of src i in
    elim (copy_in pd page (piece_start src page) (piece_end src count page) s) [
      | none ↦ none
      | some (bytes, t) ↦
          let (piece, ended) = take_string bytes room in
          let rest : Option (List ℕ × MmState) =
            elim (strncpy_from_user n (i + 1) pd src count (room - length bytes) t) [
              | none ↦ none
              | some (more, u) ↦ some (piece ++ more, u)
            ] in
          if ended then some (piece, t) else rest
    ]

-- mm_strncpy_user_to_kernel: what stands in the buffer, with its terminator.
pub strncpy_user_to_kernel : ℕ → ℕ → ℕ → MmState → Option (List ℕ × MmState)
strncpy_user_to_kernel pd src count s =
    strncpy_from_user (align_up count 0x1000 / 0x1000 + 1) 0 pd src count count s
