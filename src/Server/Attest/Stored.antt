-- ===== src/Server/Attest/Stored.antt =====
-- `handleAttest` (attest.go) over the store of internal/entry/jsonstore.go.
use svidmint.Base.{String, ◌≡◌, Result, ok, err, arith}
use svidmint.Ca.{Crypto, ReadsBack}
use svidmint.Entry.{RegistrationEntry}
use svidmint.Entry.Matcher.Best.{IsBest}
use svidmint.Entry.JsonStore
use svidmint.Entry.JsonStore.{JsonStore, StoreError, list}
use svidmint.Entry.JsonStore.Wellformed.{match-IsBest}
use svidmint.Server.Types.{
  AttestResponse, attest_body, Server, Matched, found, match_error, EntryStore, Codec, write_json,
}
use svidmint.Server.Attest.{Outside, handle_attest}
use svidmint.Server.Attest.Served.{IsServed, handle_attest-IsServed}

abbrev to_matched : Result StoreError RegistrationEntry → Matched
to_matched (ok e) = found e
to_matched (err x) = match_error

-- The JSON store as the server sees it.
abbrev pub json_entry_store : JsonStore → EntryStore
json_entry_store store = record {
  match_ = λ name claims. to_matched (JsonStore.match_ store name claims);
}

to_matched-found :
    (r : Result StoreError RegistrationEntry) (e : RegistrationEntry)
    → to_matched r ≡ found e
    → r ≡ ok e
to_matched-found (ok x) e h = ground arith
to_matched-found (err x) e h = absurd (cc)

-- With the JSON store behind the server, a response of status 200 names the SPIFFE ID of the best
-- stored entry for the attested claims: all its selectors are met, and no other matching entry has
-- more selectors, or as many and a smaller ID.
pub handle_attest-IsBest :
    (c : Crypto) (enc : Codec) (store : JsonStore) (out : Outside) (s s' : Server)
    (resp : AttestResponse) (body : String)
    → ReadsBack c
    → handle_attest c enc (json_entry_store store) out s body
      ≡ (write_json 200 (attest_body resp), s')
    → (served : IsServed c enc (json_entry_store store) out s s' body resp) × (resp.spiffe_id
        ≡ served.entry.spiffe_id)
      × IsBest (list store) served.req.evidence_type served.result.claims served.entry
handle_attest-IsBest c enc store out s s' resp body laws h =
    let served = handle_attest-IsServed c enc (json_entry_store store) out s' resp s body laws h in
    (
      served,
      served.named,
      match-IsBest store served.req.evidence_type served.result.claims served.entry (
          to_matched-found (JsonStore.match_ store served.req.evidence_type served.result.claims)
            served.entry served.matched),
    )
