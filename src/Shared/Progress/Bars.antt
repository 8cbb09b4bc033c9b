-- ===== src/Shared/Progress/Bars.antt =====
-- progress_bar.py: which bars there are, and what stays true of them.
use rx.Base.{
  ◌<◌, String, ◌≡◌, Bool, false, Option, none, some, List, [], ◌∷◌, arith, ◌==◌, nat_eq, string_eq,
  is_some, Option-cases, inl, inr, ◌||◌, ◌&&◌, not,
}
use rx.Base.Dict.{dict_laws, lookup}
use rx.Proto.{ImageProgress}
use rx.Shared.Progress.{ProgressBar, Bars, create, update, show_known, show_one, show_all}

-- What holds of every bar: its total is positive.
abbrev pub HasTotal : Option ProgressBar → Type 0
HasTotal none = Unit
HasTotal (some bar) = 0 < bar.total

-- Whether some message carries a total for this id.
abbrev pub announces : List ImageProgress → String → Bool
announces [] id = false
announces (pp ∷ pps) id = (id == pp.id && not (pp.total == 0)) || announces pps id

show_one-HasTotal :
    (pp : ImageProgress) (bars : Bars) (id : String)
    → HasTotal (lookup id bars)
    → HasTotal (lookup id (show_one pp bars))
unfolding show_one update create
show_one-HasTotal pp bars id h = elim (Option-cases (lookup pp.id bars)) [
  | inl e ↦ rw (e, show_known) (grind (arith, dict_laws))
  | inr (bar, e) ↦ rw (e, show_known) (grind (arith, dict_laws))
]

is_some-show_one :
    (pp : ImageProgress) (bars : Bars) (id : String)
    → is_some (lookup id (show_one pp bars))
      ≡ (is_some (lookup id bars) || (id == pp.id && not (pp.total == 0)))
unfolding show_one
is_some-show_one pp bars id = elim (Option-cases (lookup pp.id bars)) [
  | inl e ↦ rw (e, show_known) (grind (arith, dict_laws))
  | inr (bar, e) ↦ rw (e, show_known) (grind (arith, dict_laws))
]

show_all_onto :
    (pps : List ImageProgress) (bars : Bars) (id : String)
    → HasTotal (lookup id bars)
    → (is_some (lookup id (show_all pps bars)) ≡ (is_some (lookup id bars) || announces pps id))
      × HasTotal (lookup id (show_all pps bars))
unfolding show_all
show_all_onto [] bars id h = (ground arith, h)
show_all_onto (pp ∷ pps) bars id h =
    let (e, k) = show_all_onto pps (show_one pp bars) id (show_one-HasTotal pp bars id h) in
    (ground (arith, e, is_some-show_one pp bars id), k)

-- After any messages there is a bar for an id exactly if one of its messages carried a total, and
-- the total of every bar is positive, as the assertion in its constructor wants.
pub show_all_bars :
    (pps : List ImageProgress) (id : String)
    → (is_some (lookup id (show_all pps [])) ≡ announces pps id)
      × HasTotal (lookup id (show_all pps []))
unfolding lookup
show_all_bars pps id = show_all_onto pps [] id tt
