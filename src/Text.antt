-- ===== src/Text.antt =====
-- `Display` of an unsigned number (`format!("{}", n)`), and texts that begin alike.
use Prim.Native.Char.{Char, code}
use Prim.Native.String.{◌++◌ as append}
use text.Mathlib.TextLemmas.{append_cancel_left}
use ari.Base.{
  ℕ, zero, suc, ◌+◌, ◌-◌, ◌*◌, ◌/◌, ◌%◌, ◌<◌, String, ◌≡◌, refl, sym, ap, ◌∙◌, inl, inr, arith, ltb,
  if◌then◌else◌, ltb→lt, Bool-cases,
}

digit : ℕ → Char
digit zero = "0"
digit (suc zero) = "1"
digit (suc (suc zero)) = "2"
digit (suc (suc (suc zero))) = "3"
digit (suc (suc (suc (suc zero)))) = "4"
digit (suc (suc (suc (suc (suc zero))))) = "5"
digit (suc (suc (suc (suc (suc (suc zero)))))) = "6"
digit (suc (suc (suc (suc (suc (suc (suc zero))))))) = "7"
digit (suc (suc (suc (suc (suc (suc (suc (suc zero)))))))) = "8"
digit _ = "9"

-- The digits of a number before a text. The fuel is more than the number, so it does not run out.
decimal_before : ℕ → ℕ → String → String
decimal_before zero n rest = rest
decimal_before (suc f) n rest =
    let more = decimal_before f (n / 10) (String.◌∷◌ (digit (n % 10)) rest) in
    if ltb n 10 then String.◌∷◌ (digit n) rest else more

unfoldable pub decimal : ℕ → String
unfolding decimal_before digit
decimal n = decimal_before (suc n) n ""

value : ℕ → String → ℕ
value a String.[] = a
value a (String.◌∷◌ c s) = value (a * 10 + (code c - 48)) s

digit_value : (n : ℕ) → n < 10 → code (digit n) - 48 ≡ n
unfolding digit
digit_value zero h = refl
digit_value (suc zero) h = refl
digit_value (suc (suc zero)) h = refl
digit_value (suc (suc (suc zero))) h = refl
digit_value (suc (suc (suc (suc zero)))) h = refl
digit_value (suc (suc (suc (suc (suc zero))))) h = refl
digit_value (suc (suc (suc (suc (suc (suc zero)))))) h = refl
digit_value (suc (suc (suc (suc (suc (suc (suc zero))))))) h = refl
digit_value (suc (suc (suc (suc (suc (suc (suc (suc zero)))))))) h = refl
digit_value (suc (suc (suc (suc (suc (suc (suc (suc (suc zero))))))))) h = refl
digit_value (suc (suc (suc (suc (suc (suc (suc (suc (suc (suc n)))))))))) h = absurd (omega arith)

value-decimal_before :
    (f n : ℕ) (rest : String) → n < f → value 0 (decimal_before f n rest) ≡ value n rest
unfolding value decimal_before
value-decimal_before zero n rest h = elim h [ ]
value-decimal_before (suc f) n rest h = elim (Bool-cases (ltb n 10)) [
  | inl small ↦
      rw small (ap (λ (v : ℕ). value v rest) (omega (arith, digit_value n (ltb→lt n 10 small))))
  | inr large ↦ rw large (
      value-decimal_before f (n / 10) _ (ground arith)
      ∙ ap (λ (v : ℕ). value v rest) (omega (arith, digit_value (n % 10) (omega arith))))
]

pub decimal_inj : (a b : ℕ) → decimal a ≡ decimal b → a ≡ b
unfolding decimal value
decimal_inj a b h =
    sym (value-decimal_before (suc a) a "" (omega arith))
    ∙ ap (value 0) h
    ∙ value-decimal_before (suc b) b "" (omega arith)

-- A name under a prefix determines the number in it.
pub prefix-decimal_inj :
    (s : String) (a b : ℕ) → append s (decimal a) ≡ append s (decimal b) → a ≡ b
prefix-decimal_inj s a b h = decimal_inj a b (append_cancel_left s _ _ h)

decimal_small : decimal 2048 ≡ "2048"
unfolding decimal
decimal_small = refl
