-- ===== src/Remote/Runs.antt =====
-- Exchanges over a transport that stop at the first status other than TS_OK.
use transferencia_switch.Base.{Bool, true, false, if◌then◌else◌}
use transferencia_switch.Domain.Status.{Status, is_ok}

-- What a call answers: a status other than TS_OK, or TS_OK with a value.
pub data Answer {ℓ} (A : Type ℓ) : Type ℓ where
  failed : Status → Answer A
  done : A → Answer A

abbrev pub is_done {ℓ} : {A : Type ℓ} → Answer A → Bool
is_done (failed status) = false
is_done (done a) = true

-- A function of the context `X`.
abbrev pub Run : Type 0 → Type 0 → Type 0
Run X A = X → Answer A × X

abbrev pub pass : {X A B : Type 0} → Answer A × X → (A → Run X B) → Answer B × X
pass (failed status, x) next = (failed status, x)
pass (done a, x) next = next a x

infixl 4 ◌>>=◌ ◌>>◌
abbrev pub ◌>>=◌ : {X A B : Type 0} → Run X A → (A → Run X B) → Run X B
(run >>= next) x = pass (run x) next

abbrev pub ◌>>◌ : {X A B : Type 0} → Run X A → Run X B → Run X B
(run >> next) x = pass (run x) (λ _. next)

abbrev pub give : {X A : Type 0} → A → Run X A
give a x = (done a, x)

-- `if (status != TS_OK) goto fail;`
abbrev pub check : {X : Type 0} → Status → Run X (Unit {0})
check status x = (if is_ok status then done tt else failed status, x)

-- `if (test) { status = …; goto fail; }`
abbrev pub stop_if : {X : Type 0} → Bool → Status → Run X (Unit {0})
stop_if test status x = (if test then failed status else done tt, x)

-- A run that is done leaves a value and a context with a property.
abbrev pub Leaves {ℓ} : {X A : Type 0} → (A → X → Type ℓ) → Answer A × X → Type ℓ
Leaves P (failed status, x) = Unit
Leaves P (done a, x) = P a x

pub pass-Leaves {κ ℓ} :
    {X A B : Type 0} (P : A → X → Type κ) (Q : B → X → Type ℓ) (r : Answer A × X)
    (next : A → Run X B)
    → Leaves P r
    → ((a : A) (x : X) → P a x → Leaves Q (next a x))
    → Leaves Q (pass r next)
pass-Leaves P Q (failed status, x) next p more = tt
pass-Leaves P Q (done a, x) next p more = more a x p
