-- ===== src/Zephyr/Memory.antt =====
-- The memory that zephyr/psmq_shell.c takes: blocks that hold an int, an array of pointers or a string.
use psmq.Prelude.{ℕ, ◌≡◌, false, Option, none, some, ◌==◌, ltb, if◌then◌else◌, length, ◌+◌}
use psmq.CString.{Bytes}

abbrev pub Ptr : Type 0
Ptr = ℕ

abbrev pub null : Ptr
null = 0

-- What malloc() gave is not set before it is written; an array has its number of pointers.
pub data Block : Type 0 where
  int : Option ℕ → Block
  pointers : ℕ → (ℕ → Option Ptr) → Block
  chars : Bytes → Block

abbrev pub Memory : Type 0
Memory = Ptr → Option Block

unfoldable pub put : Memory → Ptr → Option Block → Memory
put h p c a = if a == p then c else h a

-- What a pointer leads to: nothing at NULL and at a block that was freed.
unfoldable pub cell : Memory → Ptr → Option Block
cell h p = if p == null then none else h p

-- A command on the memory; `none` is a fault.
abbrev pub Act {ℓ} : Type ℓ → Type ℓ
Act A = Memory → Option (A × Memory)

abbrev pub pure {ℓ} : {A : Type ℓ} → A → Act A
pure a h = some (a, h)

abbrev pub resumed {ℓ κ} :
    {A : Type ℓ} {B : Type κ} → (A → Act B) → Option (A × Memory) → Option (B × Memory)
resumed next none = none
resumed next (some (a, h)) = next a h

infixl 5 ◌>>=◌ ◌>>◌
abbrev pub ◌>>=◌ {ℓ κ} : {A : Type ℓ} {B : Type κ} → Act A → (A → Act B) → Act B
◌>>=◌ first next h = resumed next (first h)

abbrev pub ◌>>◌ {ℓ κ} : {A : Type ℓ} {B : Type κ} → Act A → Act B → Act B
◌>>◌ first second h = resumed (λ _. second) (first h)

abbrev result {ℓ} : {A : Type ℓ} → Option A → Act A
result none h = none
result (some a) h = some (a, h)

abbrev stored : Option Block → Ptr → Act (Unit {0})
stored none p h = none
stored (some b) p h = some (tt, put h p (some b))

abbrev int_of : Option Block → Option ℕ
int_of none = none
int_of (some (int n)) = n
int_of (some (pointers n at)) = none
int_of (some (chars t)) = none

abbrev int_to : Option Block → ℕ → Option Block
int_to none n = none
int_to (some (int m)) n = some (int (some n))
int_to (some (pointers m at)) n = none
int_to (some (chars t)) n = none

abbrev pointer_of : Option Block → ℕ → Option Ptr
pointer_of none i = none
pointer_of (some (int m)) i = none
pointer_of (some (pointers n at)) i = if ltb i n then at i else none
pointer_of (some (chars t)) i = none

abbrev pointer_to : Option Block → ℕ → Ptr → Option Block
pointer_to none i p = none
pointer_to (some (int m)) i p = none
pointer_to (some (pointers n at)) i p =
    if ltb i n then some (pointers n (λ j. if j == i then some p else at j)) else none
pointer_to (some (chars t)) i p = none

abbrev string_of : Option Block → Option (Option Bytes)
string_of none = none
string_of (some (int m)) = none
string_of (some (pointers n at)) = none
string_of (some (chars t)) = some (some t)

unfoldable pub read_int : Ptr → Act ℕ
unfolding cell
read_int p h = result (int_of (cell h p)) h

unfoldable pub write_int : Ptr → ℕ → Act (Unit {0})
unfolding cell put
write_int p n h = stored (int_to (cell h p) n) p h

-- p[i]
unfoldable pub read_pointer : Ptr → ℕ → Act Ptr
unfolding cell
read_pointer p i h = result (pointer_of (cell h p) i) h

unfoldable pub write_pointer : Ptr → ℕ → Ptr → Act (Unit {0})
unfolding cell put
write_pointer p i q h = stored (pointer_to (cell h p) i q) p h

-- The string that a pointer leads to, if it is not NULL.
unfoldable pub read_string : Ptr → Act (Option Bytes)
unfolding cell
read_string p h = result (if p == null then some none else string_of (cell h p)) h

abbrev freed : Option Block → Ptr → Act (Unit {0})
freed none p h = none
freed (some b) p h = some (tt, put h p none)

-- free() of NULL does nothing.
unfoldable pub free : Ptr → Act (Unit {0})
unfolding cell put
free p h = if p == null then some (tt, h) else freed (cell h p) p h

-- malloc() of a number of bytes: an address, or NULL.
abbrev pub Malloc : Type 0
Malloc = ℕ → Memory → Ptr

-- malloc() gives memory that is not in use.
abbrev pub IsMalloc : Malloc → Type 0
IsMalloc malloc =
    (size : ℕ) (h : Memory) → (malloc size h == null) ≡ false → h (malloc size h) ≡ none

unfoldable pub alloc : Malloc → ℕ → Block → Act Ptr
unfolding put
alloc malloc size b h =
    let p = malloc size h in if p == null then some (null, h) else some (p, put h p (some b))

-- strdup()
unfoldable pub strdup : Malloc → Bytes → Act Ptr
unfolding alloc
strdup malloc t = alloc malloc (length t + 1) (chars t)
