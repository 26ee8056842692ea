-- ===== src/Rooms/Refusal.antt =====
-- A request of the `rooms/` namespace that is refused: the error that the peer is sent.
use acp_mux.Base.{ℤ, String, Bool, true, false, Option, none, some, ◌≡◌, ◌⊎◌, arith, inl, inr, refl}
use acp_mux.Jsonrpc.{Result, ok, err}

pub record Refusal : Type 0 where
  pub code : ℤ
  pub message : String

abbrev pub Checked : Type 0 → Type 0
Checked A = Result Refusal A

infixl 5 ◌>>=◌ ◌>>◌
abbrev pub ◌>>=◌ : {A B : Type 0} → Checked A → (A → Checked B) → Checked B
ok a >>= f = f a
err e >>= f = err e

abbrev pub ◌>>◌ : {B : Type 0} → Checked (Unit {0}) → Checked B → Checked B
m >> k = m >>= λ _. k

abbrev pub refuse : {A : Type 0} → ℤ → String → Checked A
refuse code message = err (record { code = code; message = message })

-- Refused if the test holds.
abbrev pub refuse_if : Bool → ℤ → String → Checked (Unit {0})
refuse_if true code message = refuse code message
refuse_if false code message = ok tt

abbrev pub required : {A : Type 0} → Option A → ℤ → String → Checked A
required none code message = refuse code message
required (some a) code message = ok a

pub Checked-cases :
    {A : Type 0} (r : Checked A) → ((e : Refusal) × (r ≡ err e)) ⊎ ((a : A) × (r ≡ ok a))
Checked-cases (err e) = inl (e, refl)
Checked-cases (ok a) = inr (a, refl)

-- A check that comes last was passed.
pub passed_last :
    {A : Type 0} (r : Checked A) (b : Bool) (code : ℤ) (message : String) (a : A)
    → (r >>= λ x. refuse_if b code message >> ok x) ≡ ok a
    → b ≡ false
passed_last r false code message a e = refl
passed_last (ok x) true code message a e = absurd (ground arith)
passed_last (err x) true code message a e = absurd (ground arith)
