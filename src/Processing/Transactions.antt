-- ===== src/Processing/Transactions.antt =====
-- src/infrastructure/persistence/unit_of_work.py: `InMemoryUnitOfWork`. A snapshot is a deep copy and
-- restoring it refills every table, so it is the store that was.
use core_engine_ge_m.Base.{
  ◌≡◌, refl, Bool, true, false, Option, none, some, Outcome, ok, raised, if◌then◌else◌,
}
use core_engine_ge_m.Store.{Store}

pub record UnitOfWork : Type 0 where
  pub store : Store
  pub snapshot : Option Store
  pub active : Bool

-- `InMemoryUnitOfWork(store)`
abbrev pub new_uow : Store → UnitOfWork
new_uow s = record { store = s; snapshot = none; active = false }

-- What `begin` raises, or what the body of the `with` raises.
pub data Failed (E : Type 0) : Type 0 where
  already_active : Failed E
  from_body : E → Failed E

unfoldable pub begin : {E : Type 0} → UnitOfWork → UnitOfWork × Outcome (Failed E) (Unit {0})
begin u =
    if u.active
    then (u, raised already_active)
    else (record u { snapshot = some u.store; active = true }, ok tt)

unfoldable pub commit : UnitOfWork → UnitOfWork
commit u = if u.active then record u { snapshot = none; active = false } else u

-- `if self._snapshot is not None: self._store.restore(self._snapshot)`
abbrev pub restored : Option Store → Store → Store
restored none s = s
restored (some before) s = before

unfoldable pub rollback : UnitOfWork → UnitOfWork
rollback u =
    if u.active
    then record { store = restored u.snapshot u.store; snapshot = none; active = false }
    else u

-- `__exit__`: the exception goes on.
unfoldable pub exit : {E A : Type 0} → UnitOfWork → Outcome E A → UnitOfWork × Outcome (Failed E) A
unfolding commit rollback
exit u (ok a) = (commit u, ok a)
exit u (raised e) = (rollback u, raised (from_body e))

unfoldable pub entered :
    {E A : Type 0}
    → (Store → Store × Outcome E A)
    → UnitOfWork × Outcome (Failed E) (Unit {0})
    → UnitOfWork × Outcome (Failed E) A
unfolding exit
entered body (u, raised e) = (u, raised e)
entered body (u, ok started) =
    let (s, answer) = body u.store in exit (record u { store = s }) answer

-- `with uow: ...`, where the body calls the repositories.
unfoldable pub within :
    {E A : Type 0} → (Store → Store × Outcome E A) → UnitOfWork → UnitOfWork × Outcome (Failed E) A
unfolding entered begin
within {E} body u = entered body (begin {E = E} u)

-- What the store is after a `with` over a new unit of work, and what comes of the body.
abbrev pub settled : {E A : Type 0} → Store → Store × Outcome E A → Store × Outcome E A
settled before (s, ok a) = (s, ok a)
settled before (s, raised e) = (before, raised e)

abbrev pub wrapped : {E A : Type 0} → Outcome E A → Outcome (Failed E) A
wrapped (ok a) = ok a
wrapped (raised e) = raised (from_body e)

exit_lem :
    {E A : Type 0} (s : Store) (c : Store × Outcome E A)
    → exit (record { store = c.0; snapshot = some s; active = true }) c.1
      ≡ (new_uow (settled s c).0, wrapped c.1)
unfolding exit commit rollback
exit_lem s (t, ok a) = refl
exit_lem s (t, raised e) = refl

-- A `with` on a unit of work that is not active: if the body returns, its writes are kept; if it
-- raises, the store is as it was before and the exception goes on. Either way the unit is inactive
-- and without a snapshot afterwards. On an active one nothing is done and an exception raised.
pub within_lem :
    {E A : Type 0} (body : Store → Store × Outcome E A) (s : Store) (old : Option Store)
    → (within body (record { store = s; snapshot = old; active = false })
        ≡ (new_uow (settled s (body s)).0, wrapped (body s).1))
      × (within body (record { store = s; snapshot = old; active = true })
          ≡ (record { store = s; snapshot = old; active = true }, raised already_active))
unfolding within entered begin
within_lem body s old = (exit_lem s (body s), refl)
