-- ===== src/Base/Text.antt =====
-- `str` and `int` of numbers, and the string methods that the program calls: `startswith`, `split`, `join`, `count`, `replace`.
mod Numerals
unfoldable pub use Numerals.{show, int_of}
pub use Numerals.{int_of-show, int_of-show_line}
use Prim.Native.Nat.{ℕ, suc, ◌+◌}
use Prim.Native.Char.{Char, code}
use Prim.Native.String.{String, ◌++◌ as ◌<>◌}
use mathlib.Core.Path.{◌≡◌, refl, ap, ◌∙◌}
use mathlib.Core.Bool.{Bool}
use mathlib.Core.List.{List, [], ◌∷◌}
use native.Mathlib.Omega.{arith}
use text.Mathlib.Text
use text.Mathlib.TextLemmas.{nil-append, cons-append}
use rx.Base.Tests.{if◌then◌else◌}
use rx.Base.Equality.{nat_eq, ◌==◌}

abbrev pub starts_with : String → String → Bool
starts_with = Text.starts_with

-- The number of characters, `len(s)`.
abbrev pub count_chars : String → ℕ
count_chars String.[] = 0
count_chars (String.◌∷◌ c s) = suc (count_chars s)

push_front : Char → List String → List String
push_front c [] = String.◌∷◌ c "" ∷ []
push_front c (w ∷ ws) = String.◌∷◌ c w ∷ ws

-- `s.split(sep)` at one character, given by its code. The result is never empty.
unfoldable pub split : ℕ → String → List String
unfolding push_front
split sep String.[] = "" ∷ []
split sep (String.◌∷◌ c s) =
    let rest = split sep s in if code c == sep then "" ∷ rest else push_front c rest

-- `sep.join(words)`
unfoldable pub join : String → List String → String
join sep [] = ""
join sep (w ∷ []) = w
join sep (w ∷ v ∷ ws) = w <> (sep <> join sep (v ∷ ws))

-- `s.count(c)` of one character.
unfoldable pub count : ℕ → String → ℕ
count c String.[] = 0
count c (String.◌∷◌ d s) = let rest = count c s in if code d == c then suc rest else rest

split-sep :
    (sep : ℕ) (s : String) (c : Char) → code c ≡ sep → split sep (String.◌∷◌ c s) ≡ "" ∷ split sep s
unfolding split
split-sep sep s c h = ground arith

-- Splitting at the first separator, and splitting what was joined.
split-append :
    (sep : ℕ) (w s : String) (c : Char)
    → code c ≡ sep
    → count sep w ≡ 0
    → split sep (w <> String.◌∷◌ c s) ≡ w ∷ split sep s
unfolding split count
split-append sep String.[] s c h k =
    ap (split sep) (nil-append (String.◌∷◌ c s)) ∙ split-sep sep s c h
split-append sep (String.◌∷◌ d w) s c h k =
    ap (split sep) (cons-append d w (String.◌∷◌ c s)) ∙ ground (arith, split-append sep w s c h)

-- The same with the separator as a text.
pub split-append_text :
    (sep : ℕ) (w s : String) (c : Char)
    → code c ≡ sep
    → count sep w ≡ 0
    → split sep (w <> (String.◌∷◌ c "" <> s)) ≡ w ∷ split sep s
split-append_text sep w s c h k =
    ap (λ t. split sep (w <> t)) (cons-append c "" s ∙ ap (String.◌∷◌ c) (nil-append s))
    ∙ split-append sep w s c h k

pub split_whole : (sep : ℕ) (w : String) → count sep w ≡ 0 → split sep w ≡ w ∷ []
unfolding split count
split_whole sep String.[] k = refl
split_whole sep (String.◌∷◌ d w) k = ground (arith, split_whole sep w)

pub count-append : (c : ℕ) (s t : String) → count c (s <> t) ≡ count c s + count c t
unfolding count
count-append c String.[] t = ap (count c) (nil-append t) ∙ omega arith
count-append c (String.◌∷◌ d s) t =
    ap (count c) (cons-append d s t) ∙ ground (arith, count-append c s t)
