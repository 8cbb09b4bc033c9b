-- ===== src/Client/Config/Environment/Chains.antt =====
-- local.py: what a chain of conversions accepts, from what its parts accept.
use rx.Base.{
  String, true, false, ◌≡◌, refl, ◌↔◌, Outcome, ok, raised, some, List, contains, string_eq, ◌>>=◌,
  arith, bind-ok,
}
use rx.Client.Config.Values.{Value, Items, cons, Fields, field}
use rx.Client.Config.Environment.{EnvError}
use rx.Client.Config.Environment.Shape.{
  IsText, Each, one_more, TextsUnder, one_field, Optional, present,
}

-- Some message is made.
abbrev pub Accepts {ℓ} : {A : Type ℓ} → Outcome EnvError A → Type ℓ
Accepts {A = A} r = (a : A) × (r ≡ ok a)

pub both :
    {A B P Q : Type 0} (m : Outcome EnvError A) (k : A → Outcome EnvError B)
    → (Accepts m ↔ P)
    → ((a : A) → Accepts (k a) ↔ Q)
    → Accepts (m >>= k) ↔ (P × Q)
both m k (mp, pm) kq = (
  λ (b, h). let (a, e, f) = bind-ok m k b h in (mp (a, e), (kq a).0 (b, f)),
  λ (p, q). let (a, e) = pm p in let (b, f) = (kq a).1 q in (b, rw e f),
)

pub refused : {A P : Type 0} (e : EnvError) → (P → ⊥) → Accepts {A = A} (raised e) ↔ P
refused e n = (λ (a, h). ground arith, λ p. absurd (n p))

pub along : {P Q R : Type 0} → P ↔ Q → Q ↔ R → P ↔ R
along (f, g) (h, k) = (λ p. h (f p), λ r. g (k r))

-- The last step of a chain makes the value.
pub last :
    {A B P : Type 0} (m : Outcome EnvError A) (f : A → B)
    → (Accepts m ↔ P)
    → Accepts (m >>= λ a. ok (f a)) ↔ P
last m f (mp, pm) = (
  λ (b, h). let (a, e, _) = bind-ok m (λ a. ok (f a)) b h in mp (a, e),
  λ p. let (a, e) = pm p in (f a, rw e refl),
)

pub one_more_iff :
    (P : Value → Type 0) (v : Value) (vs : Items) → (P v × Each P vs) ↔ Each P (cons v vs)
one_more_iff P v vs = (λ (p, ps). one_more v vs p ps, λ h. elim h [ one_more v vs p ps ↦ (p, ps) ])

pub given : (P : Value → Type 0) (v : Value) → P v ↔ Optional P (some v)
given P v = (λ p. present v p, λ h. elim h [ present v p ↦ p ])

pub keyed :
    (keys : List String) (k : String) (v : Value) (d : Fields)
    → contains keys k ≡ true
    → (IsText v × TextsUnder keys d) ↔ TextsUnder keys (field k v d)
keyed keys k v d e =
    (λ (t, ts). one_field k v d e t ts, λ h. elim h [ one_field k v d _ t ts ↦ (t, ts) ])

pub unkeyed :
    (keys : List String) (k : String) (v : Value) (d : Fields)
    → contains keys k ≡ false
    → TextsUnder keys (field k v d)
    → ⊥
unkeyed keys k v d e h = elim h [ one_field k v d f t ts ↦ ground arith ]
