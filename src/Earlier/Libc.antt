-- ===== src/Earlier/Libc.antt =====
-- zeOSpparri/libc.c: `perror`. `itoa` and `strlen` have the same text in both kernels.
pub mod Sizes
use zeos_soa.Base.{ℕ, ◌==◌, if◌then◌else◌, Option, none, some, ◌>>=◌, List, [], ◌∷◌, codes}
use zeos_soa.Utils.{Bytes}
use zeos_soa.Libc.{WriteCall, strlen, itoa}

-- What a call of `write` sends: `size` bytes from the start of a text of the program, or from memory.
pub data Output : Type 0 where
  constant : (text : List ℕ) (size : ℕ) → Output
  memory : WriteCall → Output

-- The cases of the switch, by the error's number.
unfoldable pub message : (errno : ℕ) → Option (List ℕ × ℕ)
message errno =
    if errno == 14
    then some (codes "@ mala\n", 10)
    else if errno == 22
    then some (codes "Argumento invalido\n", 19)
    else if errno == 38
    then some (codes "Syscall no implementada\n", 24)
    else if errno == 13
    then some (codes "Falta de privilegios\n", 21)
    else if errno == 9
    then some (codes "Fichero erroneo\n", 16)
    else if errno == 12
    then some (codes "No hay procesos libres\n", 23)
    else if errno == 11
    then some (codes "No quedan frames libres\n", 24)
    else none

-- `buffer_perror` is what the pointer of that name holds, which the function does not set.
unfoldable pub perror : (errno buffer_perror : ℕ) → Bytes → Option (List Output × Bytes)
unfolding message
perror errno buffer_perror m = elim (message errno) [
  | some (text, size) ↦ some (constant text size ∷ [], m)
  | none ↦ do
    size ← strlen 11 (itoa errno buffer_perror m) buffer_perror
    some (
      constant (codes "Error desconocido: ") 19
          ∷ memory (record { buffer = buffer_perror; size = size })
          ∷ [],
      itoa errno buffer_perror m,
    )
]
