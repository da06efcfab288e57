-- ===== src/Vfs/Terminal.antt =====
-- The terminals, dev/tty.c.
use ygg_kernel.Base.{
  Bool, List, Option, [], if◌then◌else◌, none, not, some, true, ℕ, ◌++◌, ◌==◌, ◌∷◌,
}
use ygg_kernel.Vfs.{File, ReaderOps, minus_one, read_async, send_read_res}

-- struct tty, with what the serial line and the console have been sent. `pending` is whether the
-- pointer is set, `file` the file that it points to or pointed to last.
pub record Tty : Type 0 where
  pub ttyparam : ℕ
  pub pending : Bool
  pub file : File
  pub serial : List ℕ
  pub console : List ℕ

-- tty_write_char; TTY_FLG_SER is `flg_ser`.
unfoldable pub tty_write_char : ℕ → Tty → ℕ → Tty
tty_write_char flg_ser t c =
    if t.ttyparam == flg_ser
    then record t { serial = t.serial ++ (c ∷ []) }
    else if t.ttyparam == 0
    then record t { serial = t.serial ++ (c ∷ []); console = t.console ++ (c ∷ []) }
    else t

-- tty_write
unfoldable pub tty_write : ℕ → Tty → List ℕ → Tty
unfolding tty_write_char
tty_write flg_ser t [] = t
tty_write flg_ser t (c ∷ cs) = tty_write flg_ser (tty_write_char flg_ser t c) cs

-- tty_read
unfoldable pub tty_read : Tty → File → Option (ℕ × Tty)
tty_read t f = if t.pending then none else some (read_async, record t { pending = true; file = f })

-- tty_read as the driver of vfs_read: the return value and the file.
abbrev pub tty_driver : Tty → File → ℕ → ℕ × File
tty_driver t f len = elim (tty_read t f) [ none ↦ (minus_one, f) | some (r, u) ↦ (r, u.file) ]

-- tty_type
unfoldable pub tty_type : {S : Type 0} → ReaderOps S → ℕ → Tty → S → Option (Tty × S)
unfolding send_read_res
tty_type ops c t s =
    if t.pending
    then elim (send_read_res ops t.file (c ∷ []) 1 s) [
      | none ↦ none
      | some (r, g, s1) ↦ some (record t { pending = not (r == 1); file = g }, s1)
    ]
    else some (t, s)
