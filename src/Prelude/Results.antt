-- ===== src/Prelude/Results.antt =====
-- What a run of C code comes to.
use mathlib.Core.Bool.{Bool, true, false}
use mathlib.Core.Path.{◌≡◌, refl, ap}
use native.Mathlib.Omega.{arith}

-- `abort` is a failed `assert` or an exit with a failure, `fault` an access that C leaves undefined (out of bounds, through
-- NULL, or to memory never written), `hang` a loop that has not ended when its fuel is used up.
pub data Outcome {ℓ} (A : Type ℓ) : Type ℓ where
  ok : A → Outcome A
  abort fault hang : Outcome A

infixl 5 ◌>>=◌ ◌>>◌
abbrev pub ◌>>=◌ {ℓ κ} : {A : Type ℓ} {B : Type κ} → Outcome A → (A → Outcome B) → Outcome B
abort >>= next = abort
fault >>= next = fault
hang >>= next = hang
ok result >>= next = next result

abbrev pub ◌>>◌ {κ} : {B : Type κ} → Outcome (Unit {0}) → Outcome B → Outcome B
run >> rest = run >>= (λ done. rest)

-- assert(b)
abbrev pub assert : Bool → Outcome (Unit {0})
assert true = ok tt
assert false = abort

pub >>=-eq-ok {ℓ κ} :
    {A : Type ℓ} {B : Type κ} (run : Outcome A) (next : A → Outcome B) {out : B}
    → run >>= next ≡ ok out
    → (result : A) × (run ≡ ok result) × (next result ≡ ok out)
>>=-eq-ok abort next h = absurd (ground arith)
>>=-eq-ok fault next h = absurd (ground arith)
>>=-eq-ok hang next h = absurd (ground arith)
>>=-eq-ok (ok result) next h = (result, refl, h)

pub assert-eq-ok {κ} :
    {B : Type κ} (t : Bool) {m : Outcome B} {b : B}
    → (assert t >> m) ≡ ok b
    → (t ≡ true) × (m ≡ ok b)
assert-eq-ok true h = (refl, h)
assert-eq-ok false h = absurd (ground arith)

pub ok-injective {ℓ} : {A : Type ℓ} {a b : A} → ok a ≡ ok b → a ≡ b
ok-injective {a = a} e = ap (λ o. elim o [ ok m ↦ m | _ ↦ a ]) e
