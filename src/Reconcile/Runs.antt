-- ===== src/Reconcile/Runs.antt =====
-- What holds along every interleaving of the steps of internal/reconcile.go.
use dynamic_zones.Base.{
  ℕ, zero, suc, ◌≡◌, refl, true, false, List, [], ◌∷◌, arith, inl, inr, Bool-cases, ◌⊎◌,
}
use dynamic_zones.Model.{Zone}
use dynamic_zones.App.{DnsClient}
use dynamic_zones.Reconcile.{
  MissingOrInvalidZone, handle, Machine, select, check, Step, stops, checks, sends, closes, selects,
  Reach, here, later, start,
}

module _ ⦃dns : DnsClient⦄ where
  select-running :
      (m : Machine)
      → m.closed ≡ true
      → m.returned ≡ false
      → ((select m).returned ≡ false) × ((select m).closed ≡ true)
  unfolding select
  select-running m c r = ground arith

  Step-running :
      {m n : Machine}
      → Step m n
      → m.closed ≡ true
      → m.returned ≡ false
      → (n.returned ≡ false) × (n.closed ≡ true)
  unfolding check
  Step-running (stops n) c r = (r, c)
  Step-running (checks z rows e h) c r = (r, c)
  Step-running (sends t h room) c r = (r, c)
  Step-running (closes e h) c r = (r, refl)
  Step-running {m} (selects h) c r = select-running m c r

  -- Once the channel is closed, `Reconcile` never returns.
  pub Reach-running :
      {m n : Machine}
      → Reach m n
      → m.closed ≡ true
      → m.returned ≡ false
      → (n.returned ≡ false) × (n.closed ≡ true)
  Reach-running here c r = (r, c)
  Reach-running (later path st) c r = let (r', c') = Reach-running path c r in Step-running st c' r'

  -- A number of rounds of the loop.
  abbrev pub rounds : ℕ → Machine → Machine
  rounds zero m = m
  rounds (suc k) m = select (rounds k m)

  -- The next round handles the first report, or without one creates the zone "" for the user "".
  abbrev pub Handles : Machine → Type 0
  Handles m =
      ((todo : MissingOrInvalidZone) × (rest : List MissingOrInvalidZone) × (m.reports
          ≡ todo ∷ rest)
        × ((select m).server ≡ (handle todo m.server).1))
      ⊎ ((m.reports ≡ []) × ((select m).server ≡ (dns.create_user_zone [] [] true m.server).1))

  -- The round in which it returned.
  abbrev pub ReturnedEarly : Machine → Machine → Type 0
  ReturnedEarly m n =
      (o : Machine) × Reach m o × (o.closed ≡ false) × (o.reports ≡ []) × Reach (select o) n

  returns-select :
      (m : Machine)
      → m.returned ≡ false
      → (select m).returned ≡ true
      → (m.closed ≡ false) × (m.reports ≡ [])
  unfolding select
  returns-select m r e = ground arith

  Step-returned :
      {m n o : Machine}
      → Reach m n
      → Step n o
      → n.returned ≡ false
      → o.returned ≡ true
      → ReturnedEarly m o
  unfolding check
  Step-returned path (stops k) r e = cc
  Step-returned path (checks z rows h g) r e = cc
  Step-returned path (sends t h room) r e = cc
  Step-returned path (closes h g) r e = cc
  Step-returned {n} path (selects h) r e =
      let (c, q) = returns-select n r e in (n, path, c, q, here)

  -- `Reconcile` returns only in a round that found no report while the check was still going on.
  pub returned-ReturnedEarly :
      (rows : List Zone) (s : dns.State) {n : Machine}
      → Reach (start rows s) n
      → n.returned ≡ true
      → ReturnedEarly (start rows s) n
  returned-ReturnedEarly rows s here e = cc
  returned-ReturnedEarly rows s (later {n} path st) e = elim (Bool-cases n.returned) [
    | inl before ↦
        let (o, p, c, q, rest) = returned-ReturnedEarly rows s path before in
        (o, p, c, q, later rest st)
    | inr running ↦ Step-returned path st running e
  ]
