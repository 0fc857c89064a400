-- ===== src/Zones/Runs.antt =====
-- Sequences of calls of the zone methods of internal/app_logic.go, in any order and by anybody, with
-- whatever failures of the database and the DNS server on the way.
use dynamic_zones.Base.{◌≡◌, inl, inr, Bool, true, false, not, List, [], ◌∷◌, arith, any}
use dynamic_zones.Text.{Text, ◌==◌, ==_iff}
use dynamic_zones.Model.{Zone, UserClaims, ZoneResponse}
use dynamic_zones.Database.{Database, ReadsZones, WritesZones}
use dynamic_zones.Storage.{of_zone, of_owner}
use dynamic_zones.Storage.Rows.{is_stored}
use dynamic_zones.App.{App, DnsClient}
use dynamic_zones.Ownership.{IsUnique, Steps-IsUnique, Steps-is_stored, length-keep-keep}
use dynamic_zones.Zones.{zone_create, zone_join, zone_add_owner, zone_remove_owner, zone_delete}
use dynamic_zones.Zones.Steps.{zone_join-Steps, zone_add_owner-Steps, zone_remove_owner-Steps}
use dynamic_zones.Zones.Creation.{zone_create-Steps}
use dynamic_zones.Zones.Deletion.{without_zone, zone_delete-rows}

-- A call of one of the methods, with its arguments.
pub data Call : Type 0 where
  create : (username : Text) → (zone : ZoneResponse) → Call
  join : (user : UserClaims) → (zone : Text) → Call
  add_owner : (caller : UserClaims) → (zone owner : Text) → Call
  remove_owner : (caller : UserClaims) → (zone owner : Text) → Call
  delete : (username zone : Text) → Call

abbrev pub deletes : Text → Call → Bool
deletes y (delete username zone) = y == zone
deletes y c = false

module _ ⦃db : Database⦄ ⦃dns : DnsClient⦄ (app : App) where
  -- The state that a call leaves.
  abbrev pub perform : Call → (db.Db × dns.State) → (db.Db × dns.State)
  perform (create username zone) w = (zone_create app username zone w).1
  perform (join user zone) w = (zone_join app user zone w).1
  perform (add_owner caller zone owner) w = (zone_add_owner app caller zone owner w).1
  perform (remove_owner caller zone owner) w = (zone_remove_owner app caller zone owner w).1
  perform (delete username zone) w = (zone_delete app username zone w).1

  abbrev pub run : List Call → (db.Db × dns.State) → (db.Db × dns.State)
  run [] w = w
  run (c ∷ calls) w = run calls (perform c w)

without_zone-IsUnique :
    (zone : Text) (rows : List Zone) → IsUnique rows → IsUnique (without_zone zone rows)
without_zone-IsUnique zone rows h u y =
    omega (arith, length-keep-keep (of_owner u y) (λ z. not (of_zone zone z)) rows, h u y)

without_zone-is_stored :
    (y zone : Text) (rows : List Zone)
    → (y == zone) ≡ false
    → is_stored y rows ≡ true
    → is_stored y (without_zone zone rows) ≡ true
without_zone-is_stored y zone [] ne h = cc
without_zone-is_stored y zone (r ∷ rows) ne h =
    ground (arith, without_zone-is_stored y zone rows ne, ==_iff r.zone zone, ==_iff r.zone y)

module _ ⦃db : Database⦄ ⦃dns : DnsClient⦄ (app : App) (reads : ReadsZones db)
    (writes : WritesZones db) where
  abbrev Fine : (db.Db × dns.State) → Type 0
  Fine w = IsUnique (db.zones w.0)

  perform-IsUnique : (c : Call) (w : db.Db × dns.State) → Fine w → Fine (perform app c w)
  perform-IsUnique (create username zone) w h =
      Steps-IsUnique h (zone_create-Steps app reads writes username zone w)
  perform-IsUnique (join user zone) w h =
      Steps-IsUnique h (zone_join-Steps app reads writes user zone w)
  perform-IsUnique (add_owner caller zone owner) w h =
      Steps-IsUnique h (zone_add_owner-Steps app reads writes caller zone owner w)
  perform-IsUnique (remove_owner caller zone owner) w h =
      Steps-IsUnique h (zone_remove_owner-Steps app reads writes caller zone owner w)
  perform-IsUnique (delete username zone) w h =
      elim (zone_delete-rows app reads writes username zone w) [
        | inl (same, _) ↦ rw same h
        | inr gone ↦ rw gone (without_zone-IsUnique zone (db.zones w.0) h)
      ]

  perform-is_stored :
      (c : Call) (y : Text) (w : db.Db × dns.State)
      → Fine w
      → deletes y c ≡ false
      → is_stored y (db.zones w.0) ≡ true
      → is_stored y (db.zones (perform app c w).0) ≡ true
  perform-is_stored (create username zone) y w u d h =
      Steps-is_stored y u h (zone_create-Steps app reads writes username zone w)
  perform-is_stored (join user zone) y w u d h =
      Steps-is_stored y u h (zone_join-Steps app reads writes user zone w)
  perform-is_stored (add_owner caller zone owner) y w u d h =
      Steps-is_stored y u h (zone_add_owner-Steps app reads writes caller zone owner w)
  perform-is_stored (remove_owner caller zone owner) y w u d h =
      Steps-is_stored y u h (zone_remove_owner-Steps app reads writes caller zone owner w)
  perform-is_stored (delete username zone) y w u d h =
      elim (zone_delete-rows app reads writes username zone w) [
        | inl (same, _) ↦ rw same h
        | inr gone ↦ rw gone (without_zone-is_stored y zone (db.zones w.0) d h)
      ]

  -- If no user has two rows for one zone, then so it is after any sequence of calls that create,
  -- join, share, unshare and delete zones, although the table has no such constraint.
  pub run-IsUnique :
      (calls : List Call) (w : db.Db × dns.State)
      → IsUnique (db.zones w.0)
      → IsUnique (db.zones (run app calls w).0)
  run-IsUnique [] w h = h
  run-IsUnique (c ∷ calls) w h = run-IsUnique calls (perform app c w) (perform-IsUnique c w h)

  -- A zone keeps an owner through any sequence of calls that create, join, share, unshare and delete
  -- zones, none of which deletes this one, if no user had two rows for one zone at the start.
  pub run-is_stored :
      (calls : List Call) (y : Text) (w : db.Db × dns.State)
      → IsUnique (db.zones w.0)
      → any (deletes y) calls ≡ false
      → is_stored y (db.zones w.0) ≡ true
      → is_stored y (db.zones (run app calls w).0) ≡ true
  run-is_stored [] y w u d h = h
  run-is_stored (c ∷ calls) y w u d h =
      let first : deletes y c ≡ false = ground arith in
      run-is_stored calls y (perform app c w) (perform-IsUnique c w u) (ground arith)
        (perform-is_stored c y w u first h)
