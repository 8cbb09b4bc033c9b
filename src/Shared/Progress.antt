-- ===== src/Shared/Progress.antt =====
-- rx/shared/progress_bar.py. A bar is its position, its total and `_is_done`; what tqdm draws is
-- not modelled.
pub mod Bars
use rx.Base.{
  ℕ, String, Bool, true, false, Option, none, some, List, [], ◌∷◌, ◌==◌, nat_eq, string_eq,
  if◌then◌else◌,
}
use rx.Base.Dict.{Dict, lookup, insert}
use rx.Proto.{Result, RpcError, ImageProgress}
use rx.Proto.StatusCode

pub record ProgressBar : Type 0 where
  pub n : ℕ
  pub total : ℕ
  pub is_done : Bool

-- `__init__`, whose assertion is that the total is positive.
unfoldable pub create : ImageProgress → ProgressBar
create pp = record { n = 0; total = pp.total; is_done = false }

-- `update`. `tqdm.update(delta)` adds `delta` to the position, so it becomes `current`.
unfoldable pub update : ImageProgress → ProgressBar → ProgressBar
update pp bar =
    if pp.total == 0
    then bar
    else if bar.is_done
    then bar
    else record bar { n = pp.current; is_done = pp.current == pp.total }

abbrev pub Bars : Type 0
Bars = Dict String ProgressBar

show_known : ImageProgress → Bars → Option ProgressBar → Bars
show_known pp bars (some bar) = insert pp.id (update pp bar) bars
show_known pp bars none = if pp.total == 0 then bars else insert pp.id (update pp (create pp)) bars

-- The body of the loop.
unfoldable pub show_one : ImageProgress → Bars → Bars
unfolding show_known
show_one pp bars = show_known pp bars (lookup pp.id bars)

unfoldable pub show_all : List ImageProgress → Bars → Bars
show_all [] bars = bars
show_all (pp ∷ pps) bars = show_all pps (show_one pp bars)

-- The result of `show_progress_bars`, when the iterator ends so.
unfoldable pub result_after : Option RpcError → Option Result
result_after none = none
result_after (some e) = some (record { code = StatusCode.unknown; message = e.details })
