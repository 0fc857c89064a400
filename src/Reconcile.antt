-- ===== src/Reconcile.antt =====
-- internal/reconcile.go: the check of every stored zone against PowerDNS, in one goroutine, and the
-- loop that re-creates zones, in another, with a channel of 100 reports between them. The goroutine
-- that reads the rows (`GetAllZones` of internal/storage.go) hands over rows until it stops.
pub mod Runs
pub mod Reports
pub mod Repair
use dynamic_zones.Base.{
  ℕ, suc, ◌<◌, ◌≡◌, Bool, true, false, ◌||◌, List, [], ◌∷◌, ◌++◌, any, eqb, length, take, Option,
  none, some, if◌then◌else◌,
}
use dynamic_zones.Text.{Text, ◌==◌}
use dynamic_zones.Model.{Zone}
use dynamic_zones.Result.{Result, ok, err}
use dynamic_zones.Exec.{Exec, pure, ◌>>◌, ignoring, ZoneKey, ZoneDataResponse}
use dynamic_zones.App.{DnsClient}

-- `MissingOrInvalidZoneInPdns`
pub record MissingOrInvalidZone : Type 0 where
  pub zone : Zone
  pub invalid : Bool

abbrev pub lacks_field : ZoneKey → Bool
lacks_field k = k.keyname == [] || k.algorithm == [] || k.key == []

-- The body of the loop over the zones, from the answer of PowerDNS on.
unfoldable pub report_on : Zone → Result ZoneDataResponse → Option MissingOrInvalidZone
report_on zone (err e) = some (record { zone = zone; invalid = false })
report_on zone (ok r) =
    if eqb (length r.zone_keys) 0
    then some (record { zone = zone; invalid = true })
    else if any lacks_field r.zone_keys
    then some (record { zone = zone; invalid = true })
    else none

-- What a receive from a closed channel gives: the zero value of the report.
abbrev pub zero_report : MissingOrInvalidZone
zero_report = record {
  zone = record { zone = []; username = []; requires_refresh_at = 0 };
  invalid = false;
}

module _ ⦃dns : DnsClient⦄ where
  -- A zone that is invalid is deleted, with its keys, before it is created; a failure ends the round.
  unfoldable pub handle : MissingOrInvalidZone → Exec dns.State ZoneDataResponse
  handle todo =
      let create = dns.create_user_zone todo.zone.username todo.zone.zone true in
      if todo.invalid then dns.delete_zone todo.zone.zone true >> create else create

  -- The rows that are still to come, the report that waits for room, the reports in the channel,
  -- whether it is closed, and whether `Reconcile` has returned.
  pub record Machine : Type 0 where
    pub rows : List Zone
    pub held : Option MissingOrInvalidZone
    pub reports : List MissingOrInvalidZone
    pub closed : Bool
    pub returned : Bool
    pub server : dns.State

  -- The `select`: a report that is there is taken, and the zero report if the channel is closed.
  -- With neither, the default returns.
  unfoldable pub select_from : List MissingOrInvalidZone → Bool → Machine → Machine
  select_from (todo ∷ reports) closed m = record m {
    reports = reports;
    server = (handle todo m.server).1;
  }
  select_from [] true m = record m { server = (handle zero_report m.server).1 }
  select_from [] false m = record m { returned = true }

  unfoldable pub select : Machine → Machine
  unfolding select_from handle
  select m = select_from m.reports m.closed m

  unfoldable pub check : Zone → List Zone → Machine → Machine
  unfolding report_on
  check zone rows m =
      let (r, s) = dns.get_zone zone.zone [] m.server in
      record m { rows = rows; held = report_on zone r; server = s }

  -- The steps of the goroutines, in any order; a step makes all its calls of PowerDNS at once.
  pub data Step (m : Machine) : Machine → Type 0 where
    -- the rows end early: the database fails, or the context is done
    stops : (n : ℕ) → Step m (record m { rows = take n m.rows })
    checks :
        (zone : Zone) (rows : List Zone)
        → m.rows ≡ zone ∷ rows
        → m.held ≡ none
        → Step m (check zone rows m)
    sends :
        (todo : MissingOrInvalidZone)
        → m.held ≡ some todo
        → length m.reports < 100
        → Step m (record m { held = none; reports = m.reports ++ todo ∷ [] })
    closes : m.rows ≡ [] → m.held ≡ none → Step m (record m { closed = true })
    selects : m.returned ≡ false → Step m (select m)

  pub data Reach (m : Machine) : Machine → Type 0 where
    here : Reach m m
    later : {n o : Machine} → Reach m n → Step n o → Reach m o

  -- `Reconcile` before its first step.
  abbrev pub start : List Zone → dns.State → Machine
  start rows s = record {
    rows = rows;
    held = none;
    reports = [];
    closed = false;
    returned = false;
    server = s;
  }
