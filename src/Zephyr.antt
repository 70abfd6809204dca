-- ===== src/Zephyr.antt =====
-- zephyr/psmq_shell.c: the commands of a shell that run the programs. psmq-sub runs in a thread of its
-- own, on a copy of the arguments. What main does with them is a parameter, and so is malloc().
pub mod Memory
pub mod Copies
pub mod Arguments
pub mod Runs
use psmq.Prelude.{ℕ, zero, suc, ◌+◌, ◌*◌, List, [], ◌∷◌, Option, none, some, length}
use psmq.CString.{Bytes}
use psmq.Zephyr.Memory.{
  Ptr, null, int, pointers, Act, pure, ◌>>=◌, ◌>>◌, read_int, write_int, read_pointer,
  write_pointer, read_string, free, Malloc, alloc, strdup,
}

-- sizeof(int) and sizeof(char *)
abbrev pub int_size : ℕ
int_size = 4

abbrev pub pointer_size : ℕ
pointer_size = 8

-- start_psmq_pub
unfoldable start_psmq_pub {ℓ} : {A : Type ℓ} → (List (Option Bytes) → A) → List (Option Bytes) → A
start_psmq_pub main argv = main argv

-- The loop of start_psmq_sub, from the index i on.
unfoldable pub copy_from : Malloc → Ptr → ℕ → List Bytes → Act (Unit {0})
unfolding strdup write_pointer
copy_from malloc argv_copy i [] = pure tt
copy_from malloc argv_copy i (arg ∷ args) = do
  copy ← strdup malloc arg
  write_pointer argv_copy i copy
  copy_from malloc argv_copy (i + 1) args

-- start_psmq_sub: what it passes on to the thread that it creates.
unfoldable pub start_psmq_sub : Malloc → List Bytes → Act (Ptr × Ptr)
unfolding alloc write_int copy_from
start_psmq_sub malloc argv = do
  argc_copy ← alloc malloc int_size (int none)
  write_int argc_copy (length argv)
  argv_copy ← alloc malloc (length argv * pointer_size) (pointers (length argv) (λ _. none))
  copy_from malloc argv_copy 0 argv
  pure (argc_copy, argv_copy)

-- The arguments that main finds, `k` of them from the index i on; NULL is none.
unfoldable pub arguments : Ptr → ℕ → ℕ → Act (List (Option Bytes))
unfolding read_pointer read_string
arguments argv i zero = pure []
arguments argv i (suc k) = do
  p ← read_pointer argv i
  arg ← read_string p
  args ← arguments argv (i + 1) k
  pure (arg ∷ args)

-- The loop of psmq_sub_main_thread, `k` rounds from the index i on.
unfoldable pub free_from : Ptr → ℕ → ℕ → Act (Unit {0})
unfolding read_pointer free
free_from argv i zero = pure tt
free_from argv i (suc k) = do p ← read_pointer argv i; free p; free_from argv (i + 1) k

unfoldable pub psmq_sub_main_thread {ℓ} :
    {A : Type ℓ} → (List (Option Bytes) → A) → Ptr → Ptr → Act A
unfolding read_int arguments free_from free
psmq_sub_main_thread main argc argv = do
  n ← read_int argc
  args ← arguments argv 0 n
  m ← read_int argc
  free_from argv 0 m
  free argv
  free argc
  pure (main args)

-- The command `sub` of the shell, from its start to the end of its thread.
unfoldable pub run_sub {ℓ} : {A : Type ℓ} → (List (Option Bytes) → A) → Malloc → List Bytes → Act A
unfolding start_psmq_sub psmq_sub_main_thread
run_sub main malloc argv = do
  copies ← start_psmq_sub malloc argv
  psmq_sub_main_thread main copies.0 copies.1
