-- ===== src/Prelude/Results.antt =====
-- Rust's `Result<A, E>`; `e?` is a bind, and an early `return Err(e)` a guard.
use mathlib.Core.Path.{◌≡◌, refl}
use mathlib.Core.Logic.{◌⊎◌, inl, inr}
use mathlib.Core.Bool.{Bool, true, false}
use mathlib.Core.Option.{Option, none, some}

pub data Result {ℓ κ} (E : Type κ) (A : Type ℓ) : Type (ℓ ⊔ κ) where
  ok : A → Result E A
  err : E → Result E A

infixl 10 ◌>>=◌ ◌>>◌
-- `e?`
abbrev pub ◌>>=◌ {ℓ κ μ} :
    {X : Type ℓ} {Y : Type μ} {E : Type κ} (r : Result E X) (next : X → Result E Y) → Result E Y
◌>>=◌ (err e) next = err e
◌>>=◌ (ok x) next = next x

abbrev pub ◌>>◌ {ℓ κ} :
    {Y : Type ℓ} {E : Type κ} (check : Result E (Unit {0})) (next : Result E Y) → Result E Y
◌>>◌ (err e) next = err e
◌>>◌ (ok u) next = next

-- `if bad { return Err(e) }`
abbrev pub reject_if {κ} : {E : Type κ} → Bool → E → Result E (Unit {0})
reject_if true e = err e
reject_if false e = ok tt

-- `o.ok_or(e)`
abbrev pub ok_or {ℓ κ} : {E : Type κ} {A : Type ℓ} → Option A → E → Result E A
ok_or none e = err e
ok_or (some a) e = ok a

-- `r.map_err(f)`
abbrev pub map_err {ℓ κ μ} :
    {E : Type κ} {D : Type μ} {A : Type ℓ} → (E → D) → Result E A → Result D A
map_err f (ok a) = ok a
map_err f (err e) = err (f e)

pub Result-cases {ℓ κ} :
    {E : Type κ} {A : Type ℓ} (r : Result E A) → ((a : A) × (r ≡ ok a)) ⊎ ((e : E) × (r ≡ err e))
Result-cases (ok a) = inl (a, refl)
Result-cases (err e) = inr (e, refl)

-- A chain that returned has a first step that returned.
pub bind-eq-ok {ℓ κ μ} :
    {E : Type κ} {X : Type ℓ} {Y : Type μ} (r : Result E X) (next : X → Result E Y) {y : Y}
    → (r >>= next) ≡ ok y
    → (x : X) × (r ≡ ok x) × (next x ≡ ok y)
bind-eq-ok (err e) next returned = cc
bind-eq-ok (ok x) next returned = (x, refl, returned)

abbrev pub is_ok {ℓ κ} : {E : Type κ} {A : Type ℓ} → Result E A → Bool
is_ok (ok a) = true
is_ok (err e) = false

pub ok_or-eq-ok {ℓ κ} :
    {E : Type κ} {A : Type ℓ} (o : Option A) (e : E) {a : A} → ok_or o e ≡ ok a → o ≡ some a
ok_or-eq-ok none e h = cc
ok_or-eq-ok (some a) e h = cc

pub map_err-eq-ok {ℓ κ μ} :
    {E : Type κ} {D : Type μ} {A : Type ℓ} (f : E → D) (r : Result E A) {a : A}
    → map_err f r ≡ ok a
    → r ≡ ok a
map_err-eq-ok f (ok a) h = cc
map_err-eq-ok f (err e) h = cc

-- A chain that returned has passed its first guard.
pub guard-eq-ok {ℓ κ} :
    {E : Type κ} {Y : Type ℓ} (bad : Bool) (e : E) (next : Result E Y) {y : Y}
    → (reject_if bad e >> next) ≡ ok y
    → (bad ≡ false) × (next ≡ ok y)
guard-eq-ok true e next returned = cc
guard-eq-ok false e next returned = (refl, returned)
