-- ===== src/Base/Counts.antt =====
-- How often a number stands in a list, and statements about all members of a list.
use Prim.Native.Nat.{ℕ, ◌+◌, ◌≤◌, ◌<◌}
use mathlib.Core.Path.{◌≡◌, refl}
use mathlib.Core.Logic.{◌↔◌}
use mathlib.Core.List.{List, [], ◌∷◌, ◌++◌}
use native.Mathlib.Omega.{arith}
use hao_server.Base.Tests.{◌==◌, if◌then◌else◌}

abbrev pub count : ℕ → List ℕ → ℕ
count a [] = 0
count a (x ∷ xs) = (if x == a then 1 else 0) + count a xs

pub count-append :
    (i : ℕ) (front back : List ℕ) → count i (front ++ back) ≡ count i front + count i back
count-append i [] back = omega arith
count-append i (j ∷ front) back = omega (arith, count-append i front back)

abbrev pub All {ℓ κ} : {A : Type ℓ} → (A → Type κ) → List A → Type κ
All P [] = Unit
All P (x ∷ xs) = P x × All P xs

-- What holds of all members of two lists holds of all members of the two together, and conversely.
pub All-append {ℓ κ} :
    {A : Type ℓ} (P : A → Type κ) (front back : List A)
    → (All P front × All P back) ↔ All P (front ++ back)
All-append P [] back = ((λ h. h.1), λ h. (tt, h))
All-append P (a ∷ front) back =
    let (to, from) = All-append P front back in
    ((λ h. (h.0.0, to (h.0.1, h.1))), λ h. ((h.0, (from h.1).0), (from h.1).1))

pub All-map {ℓ κ κ'} :
    {A : Type ℓ} (P : A → Type κ) (Q : A → Type κ') (xs : List A)
    → ((a : A) → P a → Q a)
    → All P xs
    → All Q xs
All-map P Q [] f h = tt
All-map P Q (x ∷ xs) f h = (f x h.0, All-map P Q xs f h.1)

-- A number above all members of a list is none of them.
pub count_above : (a n : ℕ) (xs : List ℕ) → n ≤ a → All (λ x. x < n) xs → count a xs ≡ 0
count_above a n [] h all = refl
count_above a n (x ∷ xs) h all = ground (arith, count_above a n xs h all.1)
