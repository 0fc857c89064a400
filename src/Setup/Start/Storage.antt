-- ===== src/Setup/Start/Storage.antt =====
-- What `NewStorage` of internal/storage.go has done when it succeeds.
use dynamic_zones.Base.{ℕ, ◌≡◌, ◌⊎◌, refl, ◌∙◌, Bool, true, arith}
use dynamic_zones.Text.{Text, txt, ==_iff}
use dynamic_zones.Result.{Result, ok, err}
use dynamic_zones.Exec.Outcomes.{bind-outcomes}
use dynamic_zones.Setup.Start.{
  Dialect, Machine, dialect_of, max_open_conns, max_idle_conns, open_as, new_storage,
}

-- The limits of the pool that a state shows, with zero for none; whether the tables are there.
pub record IsMachine (machine : Machine) : Type 0 where
  pub open_conns : machine.State → ℕ
  pub idle_conns : machine.State → ℕ
  pub has_tables : machine.State → Bool
  pub set_open : (n : ℕ) (s : machine.State) → open_conns (machine.set_max_open_conns n s) ≡ n
  pub set_idle :
      (n : ℕ) (s : machine.State)
      → (idle_conns (machine.set_max_idle_conns n s) ≡ n)
        × (open_conns (machine.set_max_idle_conns n s) ≡ open_conns s)
  pub migrates :
      (s : machine.State)
      → (machine.auto_migrate s).0 ≡ ok tt
      → (open_conns (machine.auto_migrate s).1 ≡ open_conns s)
        × (idle_conns (machine.auto_migrate s).1 ≡ idle_conns s)
        × (has_tables (machine.auto_migrate s).1 ≡ true)

dialect_of-ok :
    (t : Text) (d : Dialect)
    → dialect_of t ≡ ok d
    → (t ≡ txt "sqlite") ⊎ (t ≡ txt "postgres") ⊎ (t ≡ txt "mysql")
dialect_of-ok t d h =
    ground (arith, ==_iff t (txt "sqlite"), ==_iff t (txt "postgres"), ==_iff t (txt "mysql"))

module _ (machine : Machine) (laws : IsMachine machine) where
  -- The type is supported, the pool is limited, and the tables are there.
  abbrev pub IsOpened : Text → machine.State → Type 0
  IsOpened db_type s =
      ((db_type ≡ txt "sqlite") ⊎ (db_type ≡ txt "postgres") ⊎ (db_type ≡ txt "mysql"))
      × (laws.open_conns s ≡ max_open_conns)
      × (laws.idle_conns s ≡ max_idle_conns)
      × (laws.has_tables s ≡ true)

  open_as-IsOpened :
      (db_type connection : Text) (r : Result Dialect) (s : machine.State)
      → dialect_of db_type ≡ r
      → (open_as machine connection r s).0 ≡ ok tt
      → IsOpened db_type (open_as machine connection r s).1
  unfolding open_as
  open_as-IsOpened db_type connection (err e) s named = λ h. cc
  open_as-IsOpened db_type connection (ok d) s named =
      let Q : Result (Unit {0}) × machine.State → Type 0 =
        λ r. r.0 ≡ ok tt → IsOpened db_type r.1 in
      bind-outcomes Q (machine.open_db d connection) _ s (λ e h k. cc)
        λ u h.
          bind-outcomes Q machine.sql_db _ (machine.open_db d connection s).1 (λ e h k. cc)
            λ v g k.
              let s1 = (machine.sql_db (machine.open_db d connection s).1).1 in
              let s2 = machine.set_max_open_conns max_open_conns s1 in
              let (idle, open_kept) = laws.set_idle max_idle_conns s2 in
              let (a, b, c) = laws.migrates (machine.set_max_idle_conns max_idle_conns s2) k in
              (
                dialect_of-ok db_type d named,
                a ∙ open_kept ∙ laws.set_open max_open_conns s1,
                b ∙ idle,
                c,
              )

  -- When the storage is opened, its type is one of the three, at most ten connections are open and
  -- five idle at a time, and the tables are there.
  pub new_storage-IsOpened :
      (db_type connection : Text) (s : machine.State)
      → (new_storage machine db_type connection s).0 ≡ ok tt
      → IsOpened db_type (new_storage machine db_type connection s).1
  unfolding new_storage
  new_storage-IsOpened db_type connection s =
      open_as-IsOpened db_type connection (dialect_of db_type) s refl
