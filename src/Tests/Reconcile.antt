-- ===== src/Tests/Reconcile.antt =====
-- The reconciliation on concrete rows.
use dynamic_zones.Base.{refl, arith, true, List, [], ◌∷◌, none}
use dynamic_zones.Text.{txt}
use dynamic_zones.Model.{Zone}
use dynamic_zones.Exec.{ZoneKey}
use dynamic_zones.PowerDns.Client.{key_name_for}
use dynamic_zones.Reconcile.{
  MissingOrInvalidZone, report_on, Machine, select, select_from, check, checks, sends, selects,
  Reach, here, later, start,
}
use dynamic_zones.Reconcile.Runs.{ReturnedEarly, returned-ReturnedEarly}
use dynamic_zones.Reconcile.Reports.{AllJustified, Judged, Reach-AllJustified}
use dynamic_zones.Tests.Memory.{server}
use dynamic_zones.Tests.Server.{pdns}
use dynamic_zones.Tests.Data.{row, ann, top}

abbrev closed : Machine ⦃dns = server⦄
closed = record (start ⦃dns = server⦄ [] []) { closed = true }

abbrev rows : List Zone
rows = row ann top ∷ []

abbrev first_round : Machine ⦃dns = server⦄
first_round = select ⦃dns = server⦄ (start ⦃dns = server⦄ rows [])

returned-ReturnedEarly_example :
    ReturnedEarly ⦃dns = server⦄ (start ⦃dns = server⦄ rows []) first_round
unfolding select select_from
returned-ReturnedEarly_example =
    returned-ReturnedEarly ⦃dns = server⦄ rows [] (later here (selects refl)) refl

abbrev checked : Machine ⦃dns = server⦄
checked = check ⦃dns = server⦄ (row ann top) [] (start ⦃dns = server⦄ rows [])

abbrev report : MissingOrInvalidZone
report = record { zone = row ann top; invalid = true }

abbrev sent : Machine ⦃dns = server⦄
sent = record checked { held = none; reports = report ∷ [] }

sent-Reach : Reach ⦃dns = server⦄ (start ⦃dns = server⦄ rows []) sent
unfolding check report_on
sent-Reach =
    later (later here (checks (row ann top) [] refl refl)) (sends report refl (omega arith))

Reach-AllJustified_example :
    AllJustified ⦃dns = server⦄ rows [] sent.reports
    × ((z : Zone) (zs : List Zone)
        → Judged z (check ⦃dns = server⦄ z zs sent).held (server.get_zone z.zone [] sent.server).0)
Reach-AllJustified_example = Reach-AllJustified ⦃dns = server⦄ rows [] sent-Reach

abbrev keys : List ZoneKey
keys =
    record {
      keyname = key_name_for ⦃pdns = pdns⦄ ann top;
      algorithm = txt "hmac-sha512";
      key = txt "AQID";
    }
    ∷ []
