-- ===== src/Tests/Requests.antt =====
-- The zone methods and handlers on concrete rows: what they change.
use dynamic_zones.Base.{◌≡◌, ◌⊎◌, some}
use dynamic_zones.Text.{txt}
use dynamic_zones.Model.{ZoneResponse}
use dynamic_zones.Result.{ok}
use dynamic_zones.App.{policy_is_zone_allowed_for_user}
use dynamic_zones.Routes.Zones.{post_zone}
use dynamic_zones.Routes.Owned.{OwnedParent, post_zone-authorised}
use dynamic_zones.Tests.Memory.{memory, server}
use dynamic_zones.Tests.Laws.{memory_reads}
use dynamic_zones.Tests.Data.{shared, app, claims, bob}

post_zone-authorised_example :
    ((post_zone ⦃db = memory⦄ ⦃dns = server⦄ app (claims bob) (txt "t.z.de") shared).1 ≡ shared)
    ⊎ ((def : ZoneResponse) × (policy_is_zone_allowed_for_user ⦃db = memory⦄
            (txt "t.z.de")
            (claims bob)
            shared.0
          ≡ ok (some def)))
    ⊎ OwnedParent ⦃db = memory⦄ bob (txt "t.z.de") shared.0
post_zone-authorised_example =
    post_zone-authorised ⦃db = memory⦄ memory_reads ⦃dns = server⦄ app (claims bob) (txt "t.z.de")
      shared
