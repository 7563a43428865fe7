-- ===== src/Tasks/Runs.antt =====
-- Runs of the kernel: the abstract machine follows them, and no task struct is lost or used twice.
use zeos_soa.Base.{ℕ, ◌+◌, ◌≡◌, refl, sym, ap, ◌∙◌, List, [], ◌∷◌, ◌++◌, arith}
use zeos_soa.Io.{Console}
use zeos_soa.Kernel.{Kernel}
use zeos_soa.Tasks.Life.{
  Spec, Act, Change, stays, rotates, ends, starts, Shows, Event, Event-Change,
}

-- The task structs that the machine knows of.
abbrev pub members : Spec → List ℕ
members s = s.running ∷ (s.ready ++ s.free)

-- The weights of the task structs at `l` together.
abbrev pub total : (weight : ℕ → ℕ) → (l : List ℕ) → ℕ
total weight [] = 0
total weight (t ∷ ts) = total weight ts + weight t

total-append :
    (weight : ℕ → ℕ) (ts us : List ℕ) → total weight (ts ++ us) ≡ total weight us + total weight ts
total-append weight [] us = omega arith
total-append weight (t ∷ ts) us = let rest = total-append weight ts us in omega (arith, rest)

-- The same structs, each as often: no weights tell the two states apart.
abbrev pub SameMembers : Spec → Spec → Type 0
SameMembers s s' = (weight : ℕ → ℕ) → total weight (members s) ≡ total weight (members s')

-- A move takes a struct from one place to another.
Change-SameMembers : (s s' : Spec) {act : Act} → Change s s' act → SameMembers s s'
Change-SameMembers s s' (stays e) a = ap (λ r. total a (members r)) (sym e)
Change-SameMembers s s' (rotates t ts e e') a =
    let to = λ (r : Spec). total a (members r) in
    omega (
      arith,
      ap to e',
      ap (λ l. total a (l ++ s.free)) e,
      total-append a s.ready s.free,
      total-append a ts s.free,
      total-append a (ts ++ (s.running ∷ [])) s.free,
      total-append a ts (s.running ∷ []),
    )
Change-SameMembers s s' (ends t ts e e') a =
    let to = λ (r : Spec). total a (members r) in
    omega (
      arith,
      ap to e',
      ap (λ l. total a (l ++ s.free)) e,
      total-append a ts s.free,
      total-append a ts (s.free ++ (s.running ∷ [])),
      total-append a s.free (s.running ∷ []),
    )
Change-SameMembers s s' (starts f fs e e') a =
    let to = λ (r : Spec). total a (members r) in
    omega (
      arith,
      ap to e',
      ap (λ l. total a (s.ready ++ l)) e,
      total-append a s.ready (f ∷ fs),
      total-append a (s.ready ++ (f ∷ [])) fs,
      total-append a s.ready (f ∷ []),
    )

-- Any number of events, one after the other.
pub data Run (show_clock : ℕ → Console → Console) (start : Kernel) : Kernel → Type 0 where
  here : Run show_clock start start
  next : {k k' : Kernel} → Run show_clock start k → Event show_clock k k' → Run show_clock start k'

-- Any number of moves.
pub data Changes (s : Spec) : Spec → Type 0 where
  no_moves : Changes s s
  more : {r r' : Spec} {act : Act} → Changes s r → Change r r' act → Changes s r'

-- However long the kernel runs, in whatever order the events come: the abstract machine can make
-- the moves that follow the run, the kernel's state stands for the state in which they end, and the
-- machine knows the same task structs as before, each as often.
pub Run-Changes :
    (show_clock : ℕ → Console → Console) (start k : Kernel) (s : Spec)
    → Shows start s
    → Run show_clock start k
    → (s' : Spec) × Changes s s' × Shows k s' × SameMembers s s'
Run-Changes show_clock start k s p here = (s, no_moves, p, λ a. refl)
Run-Changes show_clock start k s p (next {k = k1} r e) =
    let (s1, moves, p1, same) = Run-Changes show_clock start k1 s p r in
    let (s', move, p') = Event-Change show_clock k1 k s1 p1 e in
    (s', more moves move, p', λ a. same a ∙ Change-SameMembers s1 s' move a)
