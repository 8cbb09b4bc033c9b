-- ===== src/Base/Text/Numerals.antt =====
-- `str(n)` and `int(s)`.
use Prim.Native.Nat.{ℕ, zero, suc, ◌+◌, ◌-◌, ◌*◌, ◌/◌, ◌%◌, ◌<◌}
use Prim.Native.Char.{Char, code}
use Prim.Native.String.{String, ◌++◌ as ◌<>◌}
use text.Mathlib.TextLemmas.{cons-append}
use mathlib.Core.Path.{◌≡◌, refl, ap, ◌∙◌}
use mathlib.Core.Logic.{inl, inr}
use mathlib.Core.Bool.{Bool, true, false, ◌&&◌, ◌||◌}
use mathlib.Core.Option.{Option, none, some}
use native.Mathlib.Omega.{arith}
use rx.Base.Tests.{if◌then◌else◌, ltb, leb, Bool-cases}
use rx.Base.Equality.{nat_eq, ◌==◌}

digit : ℕ → Char
digit zero = "0"
digit (suc zero) = "1"
digit (suc (suc zero)) = "2"
digit (suc (suc (suc zero))) = "3"
digit (suc (suc (suc (suc zero)))) = "4"
digit (suc (suc (suc (suc (suc zero))))) = "5"
digit (suc (suc (suc (suc (suc (suc zero)))))) = "6"
digit (suc (suc (suc (suc (suc (suc (suc zero))))))) = "7"
digit (suc (suc (suc (suc (suc (suc (suc (suc zero)))))))) = "8"
digit _ = "9"

show_onto : ℕ → ℕ → String → String
show_onto zero n rest = rest
show_onto (suc fuel) n rest = elim (ltb n 10) [
  | true ↦ String.◌∷◌ (digit n) rest
  | false ↦ show_onto fuel (n / 10) (String.◌∷◌ (digit (n % 10)) rest)
]

-- `str(n)` of an integer that is not negative. Each digit takes one of the `n + 1` rounds.
unfoldable pub show : ℕ → String
unfolding show_onto digit
show n = show_onto (suc n) n ""

is_digit : ℕ → Bool
is_digit c = leb b'0' c && leb c b'9'

-- Blank, tab, newline, vertical tab, form feed, carriage return.
is_space : ℕ → Bool
unfolding nat_eq
is_space c = c == 32 || (leb 9 c && leb c 13)

only_spaces : String → Bool
unfolding is_space
only_spaces String.[] = true
only_spaces (String.◌∷◌ c s) = is_space (code c) && only_spaces s

-- After at least one digit.
int_from : ℕ → String → Option ℕ
unfolding is_digit only_spaces
int_from n String.[] = some n
int_from n (String.◌∷◌ c s) =
    let more = int_from (n * 10 + (code c - 48)) s in
    if is_digit (code c) then more else if only_spaces (String.◌∷◌ c s) then some n else none

first_digit : String → Option ℕ
unfolding int_from
first_digit String.[] = none
first_digit (String.◌∷◌ c s) = if is_digit (code c) then int_from (code c - 48) s else none

-- `int(s)` of ASCII digits with white space around them; any other text raises `ValueError`, here
-- `none`. Signs and underscores, which Python takes too, are not read.
unfoldable pub int_of : String → Option ℕ
unfolding first_digit
int_of String.[] = none
int_of (String.◌∷◌ c s) =
    let rest = int_of s in if is_space (code c) then rest else first_digit (String.◌∷◌ c s)

code-digit : (d : ℕ) → d < 10 → code (digit d) ≡ d + 48
unfolding digit
code-digit zero h = refl
code-digit (suc zero) h = refl
code-digit (suc (suc zero)) h = refl
code-digit (suc (suc (suc zero))) h = refl
code-digit (suc (suc (suc (suc zero)))) h = refl
code-digit (suc (suc (suc (suc (suc zero))))) h = refl
code-digit (suc (suc (suc (suc (suc (suc zero)))))) h = refl
code-digit (suc (suc (suc (suc (suc (suc (suc zero))))))) h = refl
code-digit (suc (suc (suc (suc (suc (suc (suc (suc zero)))))))) h = refl
code-digit (suc (suc (suc (suc (suc (suc (suc (suc (suc zero))))))))) h = refl
code-digit (suc (suc (suc (suc (suc (suc (suc (suc (suc (suc d)))))))))) h = absurd (omega arith)

is_digit-add : (d : ℕ) → d < 10 → is_digit (d + 48) ≡ true
unfolding is_digit
is_digit-add d h = ground arith

int_from-digit :
    (n d : ℕ) (s : String) → d < 10 → int_from n (String.◌∷◌ (digit d) s) ≡ int_from (n * 10 + d) s
unfolding int_from
int_from-digit n d s h =
    rw (code-digit d h, is_digit-add d h) (ap (λ (m : ℕ). int_from (n * 10 + m) s) (omega arith))

first_digit-digit :
    (d : ℕ) (s : String) → d < 10 → first_digit (String.◌∷◌ (digit d) s) ≡ int_from d s
unfolding first_digit
first_digit-digit d s h =
    rw (code-digit d h, is_digit-add d h) (ap (λ (m : ℕ). int_from m s) (omega arith))

int_of-digit :
    (d : ℕ) (s : String)
    → d < 10
    → int_of (String.◌∷◌ (digit d) s) ≡ first_digit (String.◌∷◌ (digit d) s)
unfolding int_of
int_of-digit d s h = ground (arith, code-digit d)

int_of-show_onto : (fuel n : ℕ) (s : String) → n < fuel → int_of (show_onto fuel n s) ≡ int_from n s
unfolding show_onto
int_of-show_onto zero n s h = absurd (omega arith)
int_of-show_onto (suc fuel) n s h = elim (Bool-cases (ltb n 10)) [
  | inl small ↦
      rw (small, show_onto) (int_of-digit n s (ground arith) ∙ first_digit-digit n s (ground arith))
  | inr large ↦
      rw (large, show_onto)
        (int_of-show_onto fuel (n / 10) _ (ground arith)
          ∙ int_from-digit (n / 10) (n % 10) s (omega arith)
          ∙ ap (λ (m : ℕ). int_from m s) (omega arith))
]

-- Reading a printed number gives it back.
pub int_of-show : (n : ℕ) → int_of (show n) ≡ some n
unfolding show int_from
int_of-show n = int_of-show_onto (suc n) n "" (omega arith)

show_onto-append : (fuel n : ℕ) (s t : String) → show_onto fuel n s <> t ≡ show_onto fuel n (s <> t)
unfolding show_onto
show_onto-append zero n s t = refl
show_onto-append (suc fuel) n s t = elim (Bool-cases (ltb n 10)) [
  | inl small ↦ rw (small, show_onto) (cons-append _ s t)
  | inr large ↦
      rw (large, show_onto)
        (show_onto-append fuel (n / 10) _ t ∙ ap (show_onto fuel (n / 10)) (cons-append _ s t))
]

-- So does reading a line that holds a printed number.
pub int_of-show_line : (n : ℕ) → int_of (show n <> "\n") ≡ some n
unfolding show int_from
int_of-show_line n =
    ap int_of (show_onto-append (suc n) n "" "\n") ∙ int_of-show_onto (suc n) n "\n" (omega arith)
