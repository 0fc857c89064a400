-- ===== src/Tests/Api.antt =====
-- A request with a read-only token to the whole API, on concrete rows.
use dynamic_zones.Base.{refl, true, false, [], none}
use dynamic_zones.Text.{
  txt, ◌==◌, lower, to_lower, has_prefix, is_space, trim_left, trim_right, trim_space,
}
use dynamic_zones.Result.{err, failed}
use dynamic_zones.Exec.{pure}
use dynamic_zones.Auth.{cut_bearer_prefix}
use dynamic_zones.Records.Transfer.{Transfer}
use dynamic_zones.Api.{Gate, State, delete_zone, serve}
use dynamic_zones.Api.Keeps.{SameRows}
use dynamic_zones.Api.ReadOnly.{serve-SameRows}
use dynamic_zones.Tests.Memory.{memory, server}
use dynamic_zones.Tests.Laws.{memory_reads_tokens, memory_keeps}
use dynamic_zones.Tests.Data.{app, anns, top}
use dynamic_zones.Tests.Access.{hash, request}
use dynamic_zones.Tests.Records.{counter}

abbrev gate : Gate
gate = record {
  hash_token = hash;
  verify = λ raw. err failed;
  random = err failed;
  parse_url = λ url. none;
  cors = λ allows origin. true;
  allowed_origins = [];
  dev_mode = false;
  ttl_hours = 24;
}

abbrev transfer : Transfer counter
transfer tsig zone = pure []

abbrev state : State ⦃db = memory⦄ ⦃dns = server⦄ ⦃server = counter⦄
state = (anns.0, anns.1, [])

-- Ann owns the zone that the request is to delete, and the token is hers.
serve-SameRows_example :
    SameRows ⦃db = memory⦄ anns.0
      (serve ⦃db = memory⦄ ⦃dns = server⦄ ⦃server = counter⦄ app gate
        (λ n. [])
        transfer
        []
        request
        (delete_zone top)
        state).1.0
unfolding cut_bearer_prefix lower to_lower has_prefix is_space trim_left trim_right trim_space ◌==◌
serve-SameRows_example =
    serve-SameRows ⦃db = memory⦄ ⦃dns = server⦄ ⦃server = counter⦄ memory_reads_tokens memory_keeps
      app gate (λ n. []) transfer [] request (delete_zone top) state (txt "dynz_token_00") refl refl
      refl refl
