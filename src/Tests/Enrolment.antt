-- ===== src/Tests/Enrolment.antt =====
-- internal/gateway/tokens.go and enrollserver.go on a concrete store.
use agbridge.Prelude.{
  ◌≡◌, ◌⊎◌, ◌↔◌, refl, List, [], ◌∷◌, bytes_beq, bytes_eq, codes, All, true, false, some, none, ok,
  err,
}
use agbridge.Prelude.Maps
use agbridge.Prelude.Maps.{empty, get, put, remove, entries}
use agbridge.Prelude.Maps.Assoc.{lookup, without}
use agbridge.Gateway.Sessions.{bridge}
use agbridge.Gateway.Tokens.{
  Token, TokenRequest, TokenStore, missing, saved, checked, stored, issue, consume, gc, not_found,
  already_used,
}
use agbridge.Gateway.Tokens.Spent.{Op, issues, acts, Fresh}
use agbridge.Gateway.Tokens.OneShot.{consume_once, consume-eq-ok, Accepts}
use agbridge.Gateway.Tokens.Race.{stored-revives, gc-loses}
use agbridge.Gateway.Enroll.{
  EnrollRequest, EnrollTarget, EnrollResponse, EnrollServer, DaemonState, Outside, handle_enroll,
  not_yet_enrolled, invalid_token, success, pubkey_of, resolve, response,
}
use agbridge.Gateway.Enroll.Outcome.{enroll_once, past_token}
use agbridge.Gateway.Enroll.Live.{success-live, LiveIn, Consumed}
use agbridge.Tests.Fixtures.{toy_sha256}

abbrev request : TokenRequest
request = record {
  role = bridge;
  name = codes "a";
  target = codes "d";
  targets = [];
  policy = none;
  ttl = 100;
}

abbrev issued : Token
issued = record {
  token = codes "et_1";
  role = bridge;
  name = codes "a";
  target = codes "d";
  targets = codes "d" ∷ [];
  policy = none;
  expires_at = 1100;
  used = false;
  used_at = 0;
}

abbrev other_token : Token
other_token = record issued { token = codes "et_2" }

abbrev on_disk : TokenStore
on_disk = record { toks = Maps.empty; disk = saved (Maps.put Maps.empty (codes "et_1") issued) }

abbrev no_store : TokenStore
no_store = record { toks = Maps.empty; disk = missing }

abbrev spent_token : Token
spent_token = record issued { used = true; used_at = 1001 }

consumed_ok : (consume 1000 1001 true (codes "et_1") on_disk).0 ≡ ok spent_token
unfolding consume get put empty lookup without bytes_beq
consumed_ok = refl

issued_ok : (issue (some (codes "et_1")) 1000 true request no_store).0 ≡ ok issued
unfolding issue checked bytes_beq
issued_ok = refl

consume-eq-ok_example :
    ((consume 1000 1001 true (codes "et_1") on_disk).0 ≡ ok spent_token)
    ↔ Accepts 1000 1001 true
        (codes "et_1")
        spent_token
        (Maps.get (Maps.put Maps.empty (codes "et_1") issued) (codes "et_1"))
consume-eq-ok_example = consume-eq-ok 1000 1001 true (codes "et_1") spent_token on_disk

abbrev reissue : List Op
reissue = issues (some (codes "et_2")) 1002 false request ∷ []

reissue-Fresh : All (Fresh (codes "et_1")) reissue
unfolding bytes_beq
reissue-Fresh = (refl, tt)

consume_once_example :
    ((consume 1003 1004 true
        (codes "et_1")
        (acts (consume 1000 1001 true (codes "et_1") on_disk).1 reissue)).0
      ≡ err not_found)
    ⊎ ((consume 1003 1004 true
          (codes "et_1")
          (acts (consume 1000 1001 true (codes "et_1") on_disk).1 reissue)).0
        ≡ err already_used)
consume_once_example =
    consume_once 1000 1001 1003 1004 true true (codes "et_1") spent_token on_disk reissue
      consumed_ok reissue-Fresh

issued_found : Maps.get (Maps.put Maps.empty (codes "et_1") issued) (codes "et_1") ≡ some issued
unfolding get put empty lookup without bytes_beq
issued_found = refl

stored-revives_example :
    ((consume 1000 1001 true (codes "et_1") on_disk).0
      ≡ ok (record issued { used = true; used_at = 1001 }))
    × ((consume 1010 1011 true
          (codes "et_1")
          (record (consume 1000 1001 true (codes "et_1") on_disk).1 {
            disk =
                (stored true other_token
                  (record { toks = Maps.empty; disk = on_disk.disk })).1.disk;
          })).0
        ≡ ok (record issued { used = true; used_at = 1011 }))
unfolding bytes_beq
stored-revives_example =
    stored-revives (codes "et_1") 1000 1001 1010 1011 (Maps.put Maps.empty (codes "et_1") issued)
      Maps.empty on_disk other_token issued refl issued_found refl refl refl refl

none_loaded : Maps.get on_disk.toks (codes "et_1") ≡ none
unfolding get empty lookup
none_loaded = refl

gc-loses_example :
    (consume 1010 1011 true (codes "et_1") (gc 1000 0 true on_disk)).0 ≡ err not_found
gc-loses_example = gc-loses (codes "et_1") 1000 0 1010 1011 true on_disk none_loaded

abbrev daemon_d : DaemonState
daemon_d = record {
  name = codes "d";
  device_id = codes "d_0";
  token_hash = codes "h";
  noise_pub = codes "K";
}

abbrev target_d : EnrollTarget
target_d = record { name = codes "d"; daemon_pubkey = codes "K" }

resolved_d : resolve (daemon_d ∷ []) (codes "d" ∷ []) ≡ ok (target_d ∷ [])
unfolding resolve pubkey_of bytes_beq
resolved_d = refl

-- A server on which the daemon has not enrolled, and one on which it has.
abbrev server : List DaemonState → EnrollServer
server daemons = record {
  tokens = on_disk;
  state = record { daemons = daemons; agents = [] };
  state_path = [];
  persisted = none;
  gateway_url = codes "wss://g/";
  cert_pin = [];
  live = some (record { agents = Maps.empty; daemons = Maps.empty });
}

abbrev enroll_request : EnrollRequest
enroll_request = record { token = codes "et_1"; device_pubkey_b64 = codes "P" }

abbrev outside : Outside
outside = record {
  now = 1000;
  later = 1001;
  wrote = true;
  api_key = some (codes "key");
  device = codes "01";
  saved = true;
}

-- The request that finds no daemon uses the token up.
conflict :
    (handle_enroll toy_sha256 true (some enroll_request) outside (server [])).0
    ≡ not_yet_enrolled (codes "d")
unfolding handle_enroll consume get put empty lookup without resolve pubkey_of bytes_beq
conflict = refl

conflict_past :
    past_token (handle_enroll toy_sha256 true (some enroll_request) outside (server [])).0 ≡ true
conflict_past = rw conflict refl

enroll_once_example :
    (handle_enroll toy_sha256 true (some enroll_request) outside (record (server (daemon_d ∷ [])) {
      tokens =
          acts
            (handle_enroll toy_sha256 true (some enroll_request) outside (server [])).1.tokens
            [];
    })).0
    ≡ invalid_token
unfolding bytes_beq
enroll_once_example =
    enroll_once toy_sha256 outside outside enroll_request enroll_request (server [])
      (record (server (daemon_d ∷ [])) {
        tokens =
            acts (handle_enroll toy_sha256 true (some enroll_request) outside (server [])).1.tokens
              [];
      })
      [] conflict_past tt refl refl refl

abbrev reply : EnrollResponse
reply =
    record (response toy_sha256 spent_token (codes "01") (codes "key") (server (daemon_d ∷ []))) {
      target_daemon = codes "d";
      daemon_pubkey = codes "K";
      targets = target_d ∷ [];
    }

enrolled :
    (handle_enroll toy_sha256 true (some enroll_request) outside (server (daemon_d ∷ []))).0
    ≡ success reply
unfolding handle_enroll consume get put empty lookup without resolve pubkey_of bytes_beq
enrolled = refl

success-live_example :
    (tok : Token) × Consumed toy_sha256 (some enroll_request) outside (server (daemon_d ∷ [])) tok
    × LiveIn toy_sha256 tok
        (handle_enroll toy_sha256 true
          (some enroll_request)
          outside
          (server (daemon_d ∷ []))).1.live
        reply
success-live_example =
    success-live toy_sha256 true (some enroll_request) outside (server (daemon_d ∷ [])) reply
      enrolled
