-- ===== src/Tests/Shell.antt =====
-- The shell's command `sub` with a malloc() that has five blocks.
use psmq.Prelude.{ℕ, ◌≢◌, List, [], ◌∷◌, none}
use psmq.CString.{Bytes}
use psmq.Zephyr.{run_sub}
use psmq.Zephyr.Memory.{Memory, Malloc, IsMalloc}
use psmq.Zephyr.Runs.{has_room, Ends, run_sub-Ends}
use psmq.Tests.Groups.{last_free, last_free-none}

abbrev some_blocks : ℕ → Malloc
some_blocks k size h = last_free k h

some_blocks-IsMalloc : (k : ℕ) → IsMalloc (some_blocks k)
some_blocks-IsMalloc k size h e = last_free-none k h e

abbrev empty_memory : Memory
empty_memory a = none

-- "sub", "-t", "/a"
abbrev sub_args : List Bytes
sub_args = (b's' ∷ b'u' ∷ b'b' ∷ []) ∷ (b'-' ∷ b't' ∷ []) ∷ (b'/' ∷ b'a' ∷ []) ∷ []

sub_args-some : sub_args ≢ []
sub_args-some e = absurd (cc e)

run_sub-Ends_example :
    Ends
      (λ args. args)
      sub_args
      empty_memory
      (has_room (some_blocks 5) sub_args empty_memory)
      (run_sub (λ args. args) (some_blocks 5) sub_args empty_memory)
run_sub-Ends_example =
    run_sub-Ends (λ args. args) (some_blocks 5) (some_blocks-IsMalloc 5) sub_args sub_args-some
      empty_memory
