-- ===== src/Worker/Executor/Writing.antt =====
-- executor.py: what `write` makes of a sink that takes part of the buffer at a time.
use mathlib.Core.List.{append-nil, append_assoc}
use rx.Base.{
  ℕ, zero, suc, ◌+◌, ◌-◌, ◌≤◌, ◌≡◌, refl, ap, ◌∙◌, List, [], ◌∷◌, ◌++◌, arith, length, ◌≢◌,
}
use rx.Base.Lists.{take, drop, take-append-drop}
use rx.Worker.Executor.{Sink, took, blocked, broken, complete, write_loop, write}

-- The sink raises `BlockingIOError` only where it has taken nothing.
abbrev pub Whole : List Sink → Type 0
Whole [] = Unit
Whole (blocked n ∷ answers) = (n ≡ 0) × Whole answers
Whole (took n ∷ answers) = Whole answers
Whole (broken ∷ answers) = Whole answers

-- The number of bytes that the sink is ready to take.
abbrev pub capacity : List Sink → ℕ
capacity [] = 0
capacity (took n ∷ answers) = n + capacity answers
capacity (blocked n ∷ answers) = capacity answers
capacity (broken ∷ answers) = capacity answers

-- The sink never fails.
abbrev pub Sound : List Sink → Type 0
Sound [] = Unit
Sound (broken ∷ answers) = ⊥
Sound (took n ∷ answers) = Sound answers
Sound (blocked n ∷ answers) = Sound answers

module _ {ℓ} {A : Type ℓ} where
  length-drop : (n : ℕ) (xs : List A) → length (drop n xs) ≡ length xs - n
  length-drop zero xs = omega arith
  length-drop (suc n) [] = omega arith
  length-drop (suc n) (x ∷ xs) = omega (arith, length-drop n xs)

  write_loop_complete :
      (answers : List Sink) (buf sunk : List A)
      → Whole answers
      → Sound answers
      → length buf ≤ capacity answers
      → write_loop answers buf sunk ≡ complete (sunk ++ buf)
  unfolding write_loop
  write_loop_complete [] [] sunk w s c = rw append-nil
  write_loop_complete [] (b ∷ buf) sunk w s c = absurd (omega arith)
  write_loop_complete (took n ∷ answers) [] sunk w s c = rw append-nil
  write_loop_complete (blocked n ∷ answers) [] sunk w s c = rw append-nil
  write_loop_complete (broken ∷ answers) [] sunk w s c = rw append-nil
  write_loop_complete (took n ∷ answers) (b ∷ buf) sunk w s c =
      write_loop_complete answers (drop n (b ∷ buf)) _ w s (omega (arith, length-drop n (b ∷ buf)))
      ∙ ap complete (
          append_assoc sunk (take n (b ∷ buf)) (drop n (b ∷ buf))
          ∙ ap (λ ys. sunk ++ ys) (take-append-drop n (b ∷ buf)))
  write_loop_complete (blocked n ∷ answers) (b ∷ buf) sunk (z, w) s c =
      rw (z, append-nil) (write_loop_complete answers (b ∷ buf) sunk w s c)
  write_loop_complete (broken ∷ answers) (b ∷ buf) sunk w s c = absurd s

  -- If the sink, part by part and between blocked calls that take nothing, takes as many bytes as
  -- the buffer has, and never fails, then `write` ends and exactly the buffer has reached the sink.
  pub write_complete :
      (answers : List Sink) (buf : List A)
      → Whole answers
      → Sound answers
      → length buf ≤ capacity answers
      → write answers buf ≡ complete buf
  unfolding write
  write_complete answers buf w s c = write_loop_complete answers buf [] w s c

  -- If a blocked call has taken the first `n` bytes of a buffer that is not empty, and the next call
  -- takes all that it is given, the write starts over, so those bytes reach the sink twice.
  pub write_repeats :
      (n : ℕ) (buf : List A)
      → buf ≢ []
      → write (blocked n ∷ took (length buf) ∷ []) buf ≡ complete (take n buf ++ buf)
  unfolding write
  write_repeats n [] h = absurd (h refl)
  write_repeats n (b ∷ buf) h =
      write_loop_complete (took (length (b ∷ buf)) ∷ []) (b ∷ buf) (take n (b ∷ buf)) tt tt
        (omega arith)
