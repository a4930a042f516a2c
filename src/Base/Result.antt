-- ===== src/Base/Result.antt =====
-- What a Rust call does: it returns `Ok`, it returns `Err`, or it panics (a failed `expect` or
-- `unwrap`, an arithmetic overflow, a trap).
use mathlib.Core.Path.{◌≡◌, refl}
use mathlib.Core.Logic.{◌⊎◌, inl, inr}
use mathlib.Core.Option.{Option, none, some}

pub data Res {ℓ κ} (E : Type ℓ) (A : Type κ) : Type (ℓ ⊔ κ) where
  ok : A → Res E A
  err : E → Res E A
  panic : Res E A

-- `?`
infixl 5 ◌>>=◌
abbrev pub ◌>>=◌ {ℓ κ μ} :
    {E : Type ℓ} {A : Type κ} {B : Type μ} → Res E A → (A → Res E B) → Res E B
ok a >>= f = f a
err e >>= f = err e
panic >>= f = panic

-- `ok_or`
abbrev pub ok_or {ℓ κ} : {E : Type ℓ} {A : Type κ} → Option A → E → Res E A
ok_or none e = err e
ok_or (some a) e = ok a

-- `expect` and `unwrap`
abbrev pub expect {ℓ κ} : {E : Type ℓ} {A : Type κ} → Option A → Res E A
expect none = panic
expect (some a) = ok a

-- `expect` and `unwrap` on a `Result`
abbrev pub expect_ok {ℓ κ μ} : {E : Type ℓ} {F : Type κ} {A : Type μ} → Res E A → Res F A
expect_ok (ok a) = ok a
expect_ok (err e) = panic
expect_ok panic = panic

pub Res-cases {ℓ κ} :
    {E : Type ℓ} {A : Type κ} (r : Res E A)
    → ((a : A) × (r ≡ ok a)) ⊎ (((e : E) × (r ≡ err e)) ⊎ (r ≡ panic))
Res-cases (ok a) = inl (a, refl)
Res-cases (err e) = inr (inl (e, refl))
Res-cases panic = inr (inr refl)
