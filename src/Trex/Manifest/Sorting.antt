-- ===== src/Trex/Manifest/Sorting.antt =====
-- manifest.py: what sorting by the count keeps, and the order that it makes.
use rx.Base.{
  ℕ, ◌≤◌, ◌≡◌, refl, ap, ◌∙◌, String, false, Bool-cases, some, List, [], ◌∷◌, arith, ◌||◌, ◌==◌,
  contains, Distinct, string_eq, is_some, leb, inl, inr,
}
use rx.Base.Dict.{Dict, keys, lookup, NodupKeys}
use rx.Trex.Manifest.{insert_by_count, sort_by_count}

module _ (f : String → ℕ) where
  -- No value of `f` on these exceeds the number.
  abbrev pub AllAtMost : ℕ → List String → Type 0
  AllAtMost n [] = Unit
  AllAtMost n (x ∷ xs) = (f x ≤ n) × AllAtMost n xs

  -- The value of `f` on each is at least the one on all that follow.
  abbrev pub Descending : List String → Type 0
  Descending [] = Unit
  Descending (x ∷ xs) = AllAtMost (f x) xs × Descending xs

  -- Every entry has the value of `f`.
  abbrev pub Values : Dict String ℕ → Type 0
  Values [] = Unit
  Values ((k, n) ∷ d) = (n ≡ f k) × Values d

  AllAtMost-mono : (m n : ℕ) (xs : List String) → m ≤ n → AllAtMost m xs → AllAtMost n xs
  AllAtMost-mono m n [] h a = tt
  AllAtMost-mono m n (x ∷ xs) h (b, a) = (omega arith, AllAtMost-mono m n xs h a)

  insert_by_count-AllAtMost :
      (n : ℕ) (p : String × ℕ) (d : Dict String ℕ)
      → f p.0 ≤ n
      → AllAtMost n (keys d)
      → AllAtMost n (keys (insert_by_count p d))
  unfolding insert_by_count
  insert_by_count-AllAtMost n p [] h a = (h, tt)
  insert_by_count-AllAtMost n p (q ∷ d) h (b, a) = elim (Bool-cases (leb q.1 p.1)) [
    | inl e ↦ rw e (h, (b, a))
    | inr e ↦ rw e (b, insert_by_count-AllAtMost n p d h a)
  ]

  insert_by_count-Values :
      (p : String × ℕ) (d : Dict String ℕ) → p.1 ≡ f p.0 → Values d → Values (insert_by_count p d)
  unfolding insert_by_count
  insert_by_count-Values p [] h v = (h, tt)
  insert_by_count-Values p (q ∷ d) h (b, v) = elim (Bool-cases (leb q.1 p.1)) [
    | inl e ↦ rw e (h, (b, v))
    | inr e ↦ rw e (b, insert_by_count-Values p d h v)
  ]

  insert_by_count-Descending :
      (p : String × ℕ) (d : Dict String ℕ)
      → p.1 ≡ f p.0
      → Values d
      → Descending (keys d)
      → Descending (keys (insert_by_count p d))
  unfolding insert_by_count
  insert_by_count-Descending p [] h v o = (tt, tt)
  insert_by_count-Descending p (q ∷ d) h (b, v) (a, o) = elim (Bool-cases (leb q.1 p.1)) [
    | inl e ↦
        rw e ((ground arith, AllAtMost-mono (f q.0) (f p.0) (keys d) (ground arith) a), (a, o))
    | inr e ↦ rw e (
      insert_by_count-AllAtMost (f q.0) p d (ground arith) a,
      insert_by_count-Descending p d h v o,
    )
  ]

  pub sort_by_count-Descending :
      (d : Dict String ℕ)
      → Values d
      → Values (sort_by_count d) × Descending (keys (sort_by_count d))
  unfolding sort_by_count
  sort_by_count-Descending [] v = (tt, tt)
  sort_by_count-Descending (p ∷ d) (h, v) =
      let (v', o) = sort_by_count-Descending d v in
      (insert_by_count-Values p _ h v', insert_by_count-Descending p _ h v' o)

  pub lookup-Values :
      (d : Dict String ℕ)
      → NodupKeys d
      → ((k : String) (n : ℕ) → lookup k d ≡ some n → n ≡ f k)
      → Values d
  unfolding lookup
  lookup-Values [] u h = tt
  lookup-Values ((j, m) ∷ d) (fresh, u) h =
      (h j m (ground arith), lookup-Values d u (λ k n e. h k n (ground arith)))

contains-insert_by_count :
    (p : String × ℕ) (d : Dict String ℕ) (e : String)
    → contains (keys (insert_by_count p d)) e ≡ (e == p.0 || contains (keys d) e)
unfolding insert_by_count
contains-insert_by_count p [] e = ground arith
contains-insert_by_count p (q ∷ d) e = ground (arith, contains-insert_by_count p d e)

insert_by_count-Distinct :
    (p : String × ℕ) (d : Dict String ℕ)
    → contains (keys d) p.0 ≡ false
    → Distinct (keys d)
    → Distinct (keys (insert_by_count p d))
unfolding insert_by_count
insert_by_count-Distinct p [] h u = (refl, tt)
insert_by_count-Distinct p (q ∷ d) h (fresh, u) = elim (Bool-cases (leb q.1 p.1)) [
  | inl e ↦ rw e (h, (fresh, u))
  | inr e ↦ rw e (
    ground (arith, contains-insert_by_count p d q.0),
    insert_by_count-Distinct p d (ground arith) u,
  )
]

pub contains-keys : (d : Dict String ℕ) (e : String) → contains (keys d) e ≡ is_some (lookup e d)
unfolding lookup
contains-keys [] e = refl
contains-keys (p ∷ d) e = ground (arith, contains-keys d e)

pub contains-sort_by_count :
    (d : Dict String ℕ) (e : String) → contains (keys (sort_by_count d)) e ≡ contains (keys d) e
unfolding sort_by_count
contains-sort_by_count [] e = refl
contains-sort_by_count (p ∷ d) e =
    ground (arith, contains-insert_by_count p (sort_by_count d) e, contains-sort_by_count d e)

pub sort_by_count-Distinct : (d : Dict String ℕ) → NodupKeys d → Distinct (keys (sort_by_count d))
unfolding sort_by_count
sort_by_count-Distinct [] u = tt
sort_by_count-Distinct (p ∷ d) (fresh, u) =
    insert_by_count-Distinct p _
      (contains-sort_by_count d p.0 ∙ contains-keys d p.0 ∙ ap is_some fresh)
      (sort_by_count-Distinct d u)
