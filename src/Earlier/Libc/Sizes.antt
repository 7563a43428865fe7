-- ===== src/Earlier/Libc/Sizes.antt =====
-- What `perror` of zeOSpparri/libc.c shows.
use zeos_soa.Base.{
  ℕ, ◌+◌, ◌≡◌, ◌==◌, if◌then◌else◌, Option, none, some, List, [], ◌∷◌, length, codes, arith,
}
use zeos_soa.Utils.{Bytes}
use zeos_soa.Libc.Numeral.{Prints}
use zeos_soa.Earlier.Libc.{Output, constant, memory, message}

-- The errors that `perror` has a text for: EFAULT, EINVAL, ENOSYS, EACCES, EBADF, ENOMEM, EAGAIN.
abbrev pub texts : List (ℕ × List ℕ)
texts =
    (14, codes "@ mala\n")
    ∷ (22, codes "Argumento invalido\n")
    ∷ (38, codes "Syscall no implementada\n")
    ∷ (13, codes "Falta de privilegios\n")
    ∷ (9, codes "Fichero erroneo\n")
    ∷ (12, codes "No hay procesos libres\n")
    ∷ (11, codes "No quedan frames libres\n")
    ∷ []

unfoldable pub text_of : (errno : ℕ) → List (ℕ × List ℕ) → Option (List ℕ)
text_of errno [] = none
text_of errno ((e, text) ∷ es) = if errno == e then some text else text_of errno es

-- The size that goes with a text is its length, but for error 14, EFAULT: there it is three more,
-- which takes in the NUL and two bytes of whatever lies behind it.
abbrev pub size_with : (errno : ℕ) → List ℕ → ℕ
size_with errno text = if errno == 14 then length text + 3 else length text

pub message-some :
    (errno : ℕ) (text : List ℕ)
    → text_of errno texts ≡ some text
    → message errno ≡ some (text, size_with errno text)
unfolding message text_of
message-some errno text h = ground arith

pub message-none : (errno : ℕ) → text_of errno texts ≡ none → message errno ≡ none
unfolding message text_of
message-none errno h = ground arith

-- The two outcomes of `perror`: the text of the error, or the numeral of an error without one.
pub data Shown (errno buffer : ℕ) (m : Bytes) : Option (List Output × Bytes) → Type 0 where
  known :
      (text : List ℕ)
      → text_of errno texts ≡ some text
      → Shown errno buffer m (some (constant text (size_with errno text) ∷ [], m))
  unknown :
      (n : ℕ) (m' : Bytes)
      → text_of errno texts ≡ none
      → Prints errno buffer n m m'
      → Shown errno buffer m (
          some (
            constant (codes "Error desconocido: ") 19
                ∷ memory (record { buffer = buffer; size = n })
                ∷ [],
            m',
          ))
