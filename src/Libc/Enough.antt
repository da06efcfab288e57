-- ===== src/Libc/Enough.antt =====
-- The fuel of vsnprintf is enough: every round takes at least one byte of the format.
use ygg_kernel.Base.{List, Option, false, none, some, ℕ, ◌==◌, ◌≡◌}
use ygg_kernel.Format.Interpret.{Arg}
use ygg_kernel.Libc.Vsnprintf.{Emit, round}
use ygg_kernel.Text.{byte}

-- A conversion of the format fails: in the first round, or in a later one.
pub data Fails : List ℕ → List Arg → Type 0 where
  first_round :
      (fmt : List ℕ) (args : List Arg)
      → (byte fmt == 0) ≡ false
      → round fmt args ≡ none
      → Fails fmt args
  later_round :
      (fmt fmt' : List ℕ) (args args' : List Arg) (es : List Emit)
      → (byte fmt == 0) ≡ false
      → round fmt args ≡ some (es, args', fmt')
      → Fails fmt' args'
      → Fails fmt args
