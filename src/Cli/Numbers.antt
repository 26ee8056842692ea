-- ===== src/Cli/Numbers.antt =====
-- crates/acp-mux/src/cli.rs: `ReplayTurns::from_str` on the decimals of a number.
use Prim.Native.Char.{code}
use Prim.Native.String.{String, ◌++◌}
use native.Mathlib.Numerals.{unary_clauses}
use text.Mathlib.TextLemmas.{nil-append, cons-append}
use acp_mux.Base.{
  ℕ, zero, suc, ◌+◌, ◌-◌, ◌*◌, ◌/◌, ◌%◌, ◌^◌, ◌<◌, ◌≤◌, ◌≡◌, refl, sym, ap, subst, ◌∙◌, true, some,
  inl, inr, Bool-cases, arith, ltb, if◌then◌else◌, and_then, some-and_then, ◌==◌, eq_nat,
}
use acp_mux.Core.New.{disabled, bounded}
use acp_mux.Text.{digit, digits, decimal}
use acp_mux.Cli.{digits_from, parse_u32, from_str, u32_max, eq_ignore_ascii_case}

digits_from-append :
    (n : ℕ) (s t : String)
    → digits_from n (s ++ t) ≡ and_then (digits_from n s) (λ m. digits_from m t)
unfolding digits_from
digits_from-append n String.[] t = ap (digits_from n) (nil-append t)
digits_from-append n (String.◌∷◌ c s) t =
    ap (digits_from n) (cons-append c s t)
    ∙ ground (arith, digits_from-append (n * 10 + (code c - 48)) s t)

digits_from-digit : (n d : ℕ) → d < 10 → digits_from n (digit d) ≡ some (n * 10 + d)
unfolding digits_from
digits_from-digit n zero b = refl
digits_from-digit n (suc zero) b = refl
digits_from-digit n (suc (suc zero)) b = refl
digits_from-digit n (suc (suc (suc zero))) b = refl
digits_from-digit n (suc (suc (suc (suc zero)))) b = refl
digits_from-digit n (suc (suc (suc (suc (suc zero))))) b = refl
digits_from-digit n (suc (suc (suc (suc (suc (suc zero)))))) b = refl
digits_from-digit n (suc (suc (suc (suc (suc (suc (suc zero))))))) b = refl
digits_from-digit n (suc (suc (suc (suc (suc (suc (suc (suc zero)))))))) b = refl
digits_from-digit n (suc (suc (suc (suc (suc (suc (suc (suc (suc zero))))))))) b = refl
digits_from-digit n (suc (suc (suc (suc (suc (suc (suc (suc (suc (suc d)))))))))) b =
    absurd (omega arith)

digits_from-digits : (rounds n : ℕ) → n < 10 ^ rounds → digits_from 0 (digits rounds n) ≡ some n
unfolding digits digits_from
digits_from-digits zero n b = ap some (omega (arith, b))
digits_from-digits (suc rounds) n b = elim (Bool-cases (ltb n 10)) [
  | inl small ↦ rw small (digits_from-digit 0 n (ground arith) ∙ ap some (omega arith))
  | inr large ↦
      let bound : n < 10 ^ rounds * 10 = simp unary_clauses at b in
      let front = digits_from-digits rounds (n / 10) (omega (arith, bound)) in
      rw large (
        digits_from-append 0 (digits rounds (n / 10)) (digit (n % 10))
        ∙ some-and_then (λ m. digits_from m (digit (n % 10))) front
            (digits_from-digit (n / 10) (n % 10) (omega arith) ∙ ap some (omega arith)))
]

-- What starts with a digit is no sign, no word and not empty.
StartsWithDigit : String → Type 0
StartsWithDigit String.[] = ⊥
StartsWithDigit (String.◌∷◌ c s) = (48 ≤ code c) × (code c ≤ 57)

digits_from-StartsWithDigit :
    (s : String) (m : ℕ) → digits_from 1 s ≡ some m → 1 < m → StartsWithDigit s
unfolding digits_from StartsWithDigit
digits_from-StartsWithDigit String.[] m e l = ground arith
digits_from-StartsWithDigit (String.◌∷◌ c s) m e l = ground arith

append-StartsWithDigit : (s t : String) → StartsWithDigit s → StartsWithDigit (s ++ t)
unfolding StartsWithDigit
append-StartsWithDigit String.[] t k = elim k [ ]
append-StartsWithDigit (String.◌∷◌ c s) t k = subst StartsWithDigit (sym (cons-append c s t)) k

digit-StartsWithDigit : (n : ℕ) → n < 10 → StartsWithDigit (digit n)
digit-StartsWithDigit n b =
    digits_from-StartsWithDigit (digit n) (1 * 10 + n) (digits_from-digit 1 n b) (omega arith)

digits-StartsWithDigit :
    (rounds n : ℕ) → n < 10 ^ suc rounds → StartsWithDigit (digits (suc rounds) n)
unfolding digits
digits-StartsWithDigit zero n b =
    let small : n < 10 = omega (arith, b) in
    let is : ltb n 10 ≡ true = ground (arith, small) in rw is (digit-StartsWithDigit n small)
digits-StartsWithDigit (suc r) n b = elim (Bool-cases (ltb n 10)) [
  | inl small ↦ rw small (digit-StartsWithDigit n (ground arith))
  | inr large ↦
      let bound : n < 10 ^ r * 10 * 10 = simp unary_clauses at b in
      rw large (
        append-StartsWithDigit (digits (suc r) (n / 10)) (digit (n % 10))
          (digits-StartsWithDigit r (n / 10) (simp unary_clauses (omega (arith, bound)))))
]

from_str-digits :
    (s : String) (n : ℕ)
    → StartsWithDigit s
    → digits_from 0 s ≡ some n
    → n ≤ u32_max
    → from_str s ≡ some (if n == 0 then disabled else bounded n)
unfolding from_str eq_ignore_ascii_case StartsWithDigit parse_u32
from_str-digits String.[] n k e b = elim k [ ]
from_str-digits (String.◌∷◌ c s) n k e b = ground (arith, k.0, k.1, e)

-- The decimals of a number of 32 bits are read as that bound, and those of 0 as no log at all.
pub from_str-decimal :
    (n : ℕ) → n ≤ u32_max → from_str (decimal n) ≡ some (if n == 0 then disabled else bounded n)
unfolding decimal
from_str-decimal n b =
    from_str-digits (decimal n) n (digits-StartsWithDigit 19 n (omega (arith, b)))
      (digits_from-digits 20 n (omega (arith, b))) b
