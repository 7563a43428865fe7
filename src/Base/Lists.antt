-- ===== src/Base/Lists.antt =====
-- Lists measured by native numbers, and the predicates on lists of addresses.
use Prim.Native.Nat.{ℕ, suc, ◌+◌}
use mathlib.Core.Path.{◌≡◌, sym}
use mathlib.Core.Bool.{Bool, true, false}
use mathlib.Core.Logic.{◌≢◌}
use mathlib.Core.List.{List, [], ◌∷◌, ◌++◌}
use native.Mathlib.Omega.{arith}

module _ {ℓ} {A : Type ℓ} where
  abbrev pub length : List A → ℕ
  length [] = 0
  length (x ∷ xs) = suc (length xs)

  abbrev pub is_nil : List A → Bool
  is_nil [] = true
  is_nil (x ∷ xs) = false

  pub length-append : (xs ys : List A) → length (xs ++ ys) ≡ length xs + length ys
  length-append [] ys = omega arith
  length-append (x ∷ xs) ys = omega (arith, length-append xs ys)

-- `a` is none of the members of the list.
abbrev pub Fresh : ℕ → List ℕ → Type 0
Fresh a [] = Unit {0}
Fresh a (x ∷ xs) = (a ≢ x) × Fresh a xs

-- No address occurs twice.
abbrev pub Distinct : List ℕ → Type 0
Distinct [] = Unit {0}
Distinct (x ∷ xs) = Fresh x xs × Distinct xs

-- The lists share no address.
abbrev pub Disjoint : List ℕ → List ℕ → Type 0
Disjoint [] ys = Unit {0}
Disjoint (x ∷ xs) ys = Fresh x ys × Disjoint xs ys

pub Fresh-append : (a : ℕ) (xs ys : List ℕ) → Fresh a xs → Fresh a ys → Fresh a (xs ++ ys)
Fresh-append a [] ys h k = k
Fresh-append a (x ∷ xs) ys h k = (h.0, Fresh-append a xs ys h.1 k)

pub Fresh-left : (a : ℕ) (xs ys : List ℕ) → Fresh a (xs ++ ys) → Fresh a xs
Fresh-left a [] ys h = tt
Fresh-left a (x ∷ xs) ys h = (h.0, Fresh-left a xs ys h.1)

pub Fresh-right : (a : ℕ) (xs ys : List ℕ) → Fresh a (xs ++ ys) → Fresh a ys
Fresh-right a [] ys h = h
Fresh-right a (x ∷ xs) ys h = Fresh-right a xs ys h.1

-- One address in the middle of a list of distinct ones.
pub Distinct-middle :
    (xs : List ℕ) (a : ℕ) (ys : List ℕ)
    → Distinct (xs ++ (a ∷ ys))
    → Distinct (xs ++ ys) × Fresh a (xs ++ ys)
Distinct-middle [] a ys h = (h.1, h.0)
Distinct-middle (x ∷ xs) a ys h =
    let (d, f) = Distinct-middle xs a ys h.1 in
    let away = Fresh-right x xs (a ∷ ys) h.0 in
    ((Fresh-append x xs ys (Fresh-left x xs (a ∷ ys) h.0) away.1, d), (λ e. away.0 (sym e), f))

pub Distinct-snoc : (xs : List ℕ) (a : ℕ) → Distinct xs → Fresh a xs → Distinct (xs ++ (a ∷ []))
Distinct-snoc [] a d f = (tt, tt)
Distinct-snoc (x ∷ xs) a d f =
    (Fresh-append x xs (a ∷ []) d.0 ((λ e. f.0 (sym e)), tt), Distinct-snoc xs a d.1 f.1)

pub Fresh-drop :
    (a : ℕ) (xs : List ℕ) (e : ℕ) (ys : List ℕ) → Fresh a (xs ++ (e ∷ ys)) → Fresh a (xs ++ ys)
Fresh-drop a xs e ys h =
    Fresh-append a xs ys (Fresh-left a xs (e ∷ ys) h) (Fresh-right a xs (e ∷ ys) h).1

pub Disjoint-split :
    (xs : List ℕ) (e : ℕ) (ys zs : List ℕ)
    → Disjoint (xs ++ (e ∷ ys)) zs
    → Disjoint xs zs × Fresh e zs × Disjoint ys zs
Disjoint-split [] e ys zs h = (tt, h.0, h.1)
Disjoint-split (x ∷ xs) e ys zs h =
    let (l, m, r) = Disjoint-split xs e ys zs h.1 in ((h.0, l), m, r)

Disjoint-nil : (xs : List ℕ) → Disjoint xs []
Disjoint-nil [] = tt
Disjoint-nil (x ∷ xs) = (tt, Disjoint-nil xs)

pub Disjoint-cons :
    (xs : List ℕ) (z : ℕ) (ys : List ℕ) → Disjoint xs ys → Fresh z xs → Disjoint xs (z ∷ ys)
Disjoint-cons [] z ys d f = tt
Disjoint-cons (x ∷ xs) z ys d f = (((λ e. f.0 (sym e)), d.0), Disjoint-cons xs z ys d.1 f.1)

pub Disjoint-uncons :
    (xs : List ℕ) (z : ℕ) (ys : List ℕ) → Disjoint xs (z ∷ ys) → Disjoint xs ys × Fresh z xs
Disjoint-uncons [] z ys d = (tt, tt)
Disjoint-uncons (x ∷ xs) z ys d =
    let (rest, fresh) = Disjoint-uncons xs z ys d.1 in
    ((d.0.1, rest), ((λ e. d.0.0 (sym e)), fresh))

pub Disjoint-symm : (xs ys : List ℕ) → Disjoint xs ys → Disjoint ys xs
Disjoint-symm [] ys d = Disjoint-nil ys
Disjoint-symm (x ∷ xs) ys d = Disjoint-cons ys x xs (Disjoint-symm xs ys d.1) d.0

pub Disjoint-append : (xs ys zs : List ℕ) → Disjoint xs zs → Disjoint ys zs → Disjoint (xs ++ ys) zs
Disjoint-append [] ys zs d e = e
Disjoint-append (x ∷ xs) ys zs d e = (d.0, Disjoint-append xs ys zs d.1 e)

-- Every member has the property.
abbrev pub All {ℓ κ} : {A : Type ℓ} → (A → Type κ) → List A → Type κ
All P [] = Unit
All P (x ∷ xs) = P x × All P xs

pub All-snoc {ℓ κ} :
    {A : Type ℓ} (P : A → Type κ) (xs : List A) (a : A) → All P xs → P a → All P (xs ++ (a ∷ []))
All-snoc P [] a h p = (p, tt)
All-snoc P (x ∷ xs) a h p = (h.0, All-snoc P xs a h.1 p)

pub All-map {ℓ κ} :
    {A : Type ℓ} (P Q : A → Type κ) (xs : List A) → ((x : A) → P x → Q x) → All P xs → All Q xs
All-map P Q [] f h = tt
All-map P Q (x ∷ xs) f h = (f x h.0, All-map P Q xs f h.1)
