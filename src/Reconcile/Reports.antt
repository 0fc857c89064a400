-- ===== src/Reconcile/Reports.antt =====
-- What the reports of `MissingOrInvalidZonesInPdns` of internal/reconcile.go say, along every
-- interleaving of the steps.
use dynamic_zones.Base.{
  ℕ, zero, suc, ◌≡◌, ◌≢◌, refl, sym, ◌∙◌, inl, inr, Bool, true, false, List, [], ◌∷◌, ◌++◌, any,
  length, take, eqb, Option, none, some, arith, Bool-cases, append_assoc,
}
use mathlib.Core.Bool.{false≢true}
use dynamic_zones.Text.{==_iff}
use dynamic_zones.Model.{Zone}
use dynamic_zones.Result.{Result, ok, err}
use dynamic_zones.Exec.{ZoneKey, ZoneDataResponse}
use dynamic_zones.App.{DnsClient}
use dynamic_zones.Reconcile.{
  MissingOrInvalidZone, lacks_field, report_on, Machine, select_from, select, check, Step, stops,
  checks, sends, closes, selects, Reach, here, later, start,
}

abbrev pub IsFull : ZoneKey → Type 0
IsFull k = (k.keyname ≢ []) × (k.algorithm ≢ []) × (k.key ≢ [])

abbrev pub AllFull : List ZoneKey → Type 0
AllFull [] = Unit {0}
AllFull (k ∷ ks) = IsFull k × AllFull ks

-- PowerDNS has a key for the zone, and no key of it lacks a field.
abbrev pub HasKeys : List ZoneKey → Type 0
HasKeys ks = (ks ≢ []) × AllFull ks

-- The report says what the answer of PowerDNS shows: there is no zone, or its keys are not in order.
abbrev pub Reported : MissingOrInvalidZone → Result ZoneDataResponse → Type 0
Reported t (err e) = t.invalid ≡ false
Reported t (ok a) = (t.invalid ≡ true) × ¬ HasKeys a.zone_keys

-- What becomes of a zone, after an answer of PowerDNS.
abbrev pub Judged : Zone → Option MissingOrInvalidZone → Result ZoneDataResponse → Type 0
Judged z none r = (a : ZoneDataResponse) × (r ≡ ok a) × HasKeys a.zone_keys
Judged z (some t) r = (t.zone ≡ z) × Reported t r

lacks_field-IsFull : (k : ZoneKey) → lacks_field k ≡ false → IsFull k
lacks_field-IsFull k h = ground (arith, ==_iff k.keyname [], ==_iff k.algorithm [], ==_iff k.key [])

IsFull-lacks_field : (k : ZoneKey) → IsFull k → lacks_field k ≡ false
IsFull-lacks_field k h = ground (arith, ==_iff k.keyname [], ==_iff k.algorithm [], ==_iff k.key [])

any-AllFull : (ks : List ZoneKey) → any lacks_field ks ≡ false → AllFull ks
any-AllFull [] h = tt
any-AllFull (k ∷ ks) h = (lacks_field-IsFull k (ground arith), any-AllFull ks (ground arith))

AllFull-any : (ks : List ZoneKey) → AllFull ks → any lacks_field ks ≡ false
AllFull-any [] h = refl
AllFull-any (k ∷ ks) (full, rest) = rw (IsFull-lacks_field k full) (AllFull-any ks rest)

report_on-Judged : (z : Zone) (r : Result ZoneDataResponse) → Judged z (report_on z r) r
unfolding report_on
report_on-Judged z (err e) = (refl, refl)
report_on-Judged z (ok a) = judged a.zone_keys refl
  where
    judged : (ks : List ZoneKey) → a.zone_keys ≡ ks → Judged z (report_on z (ok a)) (ok a)
    judged [] e = rw e (refl, (refl, λ h. h.0 refl))
    judged (k ∷ ks) e =
        let some_key : eqb (length (k ∷ ks)) 0 ≡ false = ground arith in
        elim (Bool-cases (any lacks_field (k ∷ ks))) [
          | inl lacks ↦
              rw (e, some_key, lacks)
                (refl, (refl, λ h. false≢true (sym (AllFull-any (k ∷ ks) h.1) ∙ lacks)))
          | inr full ↦ rw (e, some_key, full) (_, refl, ((λ h. cc), any-AllFull (k ∷ ks) full))
        ]

-- The zone is one of the rows.
abbrev pub IsRow : List Zone → Zone → Type 0
IsRow rows z = (first : List Zone) × (last : List Zone) × (rows ≡ first ++ z ∷ last)

module _ ⦃dns : DnsClient⦄ (rows : List Zone) (s : dns.State) where
  -- A report on one of the rows, by an answer that PowerDNS gave in a state of the run.
  abbrev pub IsJustified : MissingOrInvalidZone → Type 0
  IsJustified t =
      IsRow rows t.zone
      × (m : Machine) × Reach (start rows s) m
      × Reported t (dns.get_zone t.zone.zone [] m.server).0

  abbrev pub AllJustified : List MissingOrInvalidZone → Type 0
  AllJustified [] = Unit {0}
  AllJustified (t ∷ ts) = IsJustified t × AllJustified ts

  abbrev HeldJustified : Option MissingOrInvalidZone → Type 0
  HeldJustified none = Unit {0}
  HeldJustified (some t) = IsJustified t

  abbrev AllRows : List Zone → Type 0
  AllRows [] = Unit {0}
  AllRows (z ∷ zs) = IsRow rows z × AllRows zs

  AllRows-take : (n : ℕ) (zs : List Zone) → AllRows zs → AllRows (take n zs)
  AllRows-take zero zs h = tt
  AllRows-take (suc n) [] h = tt
  AllRows-take (suc n) (z ∷ zs) (p, h) = (p, AllRows-take n zs h)

  AllRows-all : (first zs : List Zone) → rows ≡ first ++ zs → AllRows zs
  AllRows-all first [] e = tt
  AllRows-all first (z ∷ zs) e =
      ((first, zs, e), AllRows-all (first ++ z ∷ []) zs (e ∙ sym (append_assoc first (z ∷ []) zs)))

  AllJustified-append :
      (ts : List MissingOrInvalidZone) (t : MissingOrInvalidZone)
      → AllJustified ts
      → IsJustified t
      → AllJustified (ts ++ t ∷ [])
  AllJustified-append [] t h p = (p, tt)
  AllJustified-append (u ∷ ts) t (q, h) p = (q, AllJustified-append ts t h p)

  abbrev IsSound : Machine → Type 0
  IsSound m = AllRows m.rows × HeldJustified m.held × AllJustified m.reports

  -- What a check holds back is justified by the state that it was made in.
  Judged-HeldJustified :
      (z : Zone) (held : Option MissingOrInvalidZone) (m : Machine)
      → IsRow rows z
      → Reach (start rows s) m
      → Judged z held (dns.get_zone z.zone [] m.server).0
      → HeldJustified held
  Judged-HeldJustified z none m row path h = tt
  Judged-HeldJustified z (some t) m row path (same, h) = (rw same row, m, path, rw same h)

  select-IsSound :
      (ts : List MissingOrInvalidZone) (c : Bool) (m : Machine)
      → AllRows m.rows
      → HeldJustified m.held
      → AllJustified ts
      → m.reports ≡ ts
      → IsSound (select_from ts c m)
  unfolding select_from
  select-IsSound (t ∷ ts) c m r h (p, e) q = (r, h, e)
  select-IsSound [] true m r h e q = (r, h, rw q tt)
  select-IsSound [] false m r h e q = (r, h, rw q tt)

  Step-IsSound : {m n : Machine} → Reach (start rows s) m → Step m n → IsSound m → IsSound n
  unfolding check select
  Step-IsSound {m} path (stops k) (r, h, e) = (AllRows-take k m.rows r, h, e)
  Step-IsSound {m} path (checks z zs q g) (r, h, e) =
      let (row, rest) : AllRows (z ∷ zs) = rw q at r in
      let answer = (dns.get_zone z.zone [] m.server).0 in
      (rest, Judged-HeldJustified z (report_on z answer) m row path (report_on-Judged z answer), e)
  Step-IsSound {m} path (sends t g room) (r, h, e) =
      let p : HeldJustified (some t) = rw g at h in (r, tt, AllJustified-append m.reports t e p)
  Step-IsSound path (closes q g) sound = sound
  Step-IsSound {m} path (selects q) (r, h, e) = select-IsSound m.reports m.closed m r h e refl

  Reach-IsSound : {n : Machine} → Reach (start rows s) n → IsSound n
  Reach-IsSound here = (AllRows-all [] rows refl, tt, tt)
  Reach-IsSound (later path st) = Step-IsSound path st (Reach-IsSound path)

  -- Along every interleaving of the steps, each report in the channel is on one of the rows, and says
  -- what PowerDNS answered in some state of the run: invalid if there were no keys or one that lacks a
  -- field, and otherwise that there was no answer. A check that makes no report was answered with
  -- keys, none of which lacks a field, and one that makes a report makes it on the zone checked and
  -- says what the answer shows.
  pub Reach-AllJustified :
      {n : Machine}
      → Reach (start rows s) n
      → AllJustified n.reports
        × ((z : Zone) (zs : List Zone)
            → Judged z (check z zs n).held (dns.get_zone z.zone [] n.server).0)
  unfolding check
  Reach-AllJustified {n} path =
      let (r, h, e) = Reach-IsSound path in
      (e, λ z zs. report_on-Judged z (dns.get_zone z.zone [] n.server).0)
