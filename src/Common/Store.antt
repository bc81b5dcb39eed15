-- ===== src/Common/Store.antt =====
-- What the services change: the tables of the database, and an outbox of what was sent. A failing
-- write is an event of the environment: `faults` says of each coming write whether it throws, and
-- when the list is used up no write does.
use mathlib.Core.Path.{◌≡◌}
use mathlib.Core.Bool.{Bool, true, false}
use mathlib.Core.List.{List, [], ◌∷◌, ◌++◌}
use native.Mathlib.Omega.{arith}
use facilpay_api.Common.Tests.{⊤}
use facilpay_api.Common.Action.{failure, Result, ok, err, ◌>>=◌, ◌>>◌, pure}

pub record Store (T E : Type 0) : Type 0 where
  pub tables : T
  pub outbox : List E
  pub faults : List Bool

module _ {T E : Type 0} where
  -- One write to the database: it throws, or it changes the tables.
  abbrev pub write : (T → T) → Store T E → Result ⊤ × Store T E
  write f s = elim s.faults [
    | [] ↦ (ok tt, record s { tables = f s.tables })
    | true ∷ rest ↦ (err failure, record s { faults = rest })
    | false ∷ rest ↦ (ok tt, record s { tables = f s.tables; faults = rest })
  ]

  abbrev pub send : List E → Store T E → Store T E
  send es s = record s { outbox = s.outbox ++ es }

  abbrev pub emit : List E → Store T E → Result ⊤ × Store T E
  emit es s = (ok tt, send es s)

  -- `startTransaction` … `commitTransaction`, with `rollbackTransaction` when something is thrown,
  -- the commit included: a rollback restores the tables, and what was sent stays sent.
  abbrev pub transaction :
      {A : Type 0} → (Store T E → Result A × Store T E) → Store T E → Result A × Store T E
  transaction body s =
      let committed = body >>= λ a. write (λ t. t) >> pure a in
      let (r, s') = committed s in
      elim r [ ok a ↦ (ok a, s') | err e ↦ (err e, record s' { tables = s.tables }) ]

-- A write that returns changed the tables.
pub write_ok :
    {T E : Type 0} (f : T → T) (s : Store T E) (u : ⊤)
    → (write f s).0 ≡ ok u
    → (write f s).1.tables ≡ f s.tables
write_ok f s u h = ground (arith, h)
