-- ===== src/Examples/Syncing.antt =====
-- The loop that syncs a joining replica's counters, at a cluster of three.
use mero_tee.Prelude.{
  ◌++◌, if◌then◌else◌, Option, ◌≡◌, refl, true, false, none, some, [], ◌∷◌, list_eq, take,
  replicate, arith,
}
use mero_tee.Text.{Str, Bytes, lit}
use mero_tee.Errors.{ok, err}
use mero_tee.Examples.{toy, toy_backend, toy_root}
use mero_tee.Backend.{derive_salted, counters_key_salt, counters_key, with_root}
use mero_tee.Counters.Replica.{
  Counters, CounterJson, Net, Signed, HttpResponse, Answer, answer_domain, read_domain,
}
use mero_tee.Counters.Replica
use mero_tee.Router.Startup.{Sync, ends, sync_until_ready}
use mero_tee.Counters.Ops.{sync_once, finish_sync, ready_answers, merge_all}
use mero_tee.Router.Synced.{Suffices, sync_until_ready-ends}

abbrev key : Bytes
key = derive_salted toy toy_root counters_key_salt (lit "counters")

-- A message is the sender's id; the MAC is the one that the stand-in makes.
abbrev json : CounterJson
json = record {
  read_to = λ b. ok [];
  read_from = λ t. err [];
  merge_to = λ b. err [];
  merge_from = λ t. err [];
  answer_to = λ b. err [];
  answer_from = λ t. ok (record {
    nonce_b64 = [];
    replica_id_b64 = t;
    ready = true;
    formed = true;
    genesis_secs = none;
    counters = [];
  });
  signed_from = λ b. some (record { body = b; mac_b64 = toy.hmac key (answer_domain ++ b) });
}

abbrev ask : Str → Signed → Option HttpResponse
ask url m = some (record {
  is_success = true;
  bytes = replicate 16 (if list_eq (take 1 url) (b'a' ∷ []) then 2 else 3);
})

abbrev unheard : Sync
unheard = record { net = record { ask = λ url m. none; meanwhile = λ i. i }; nonce = []; now = 100 }

abbrev heard : Sync
heard = record unheard { net = record { ask = ask; meanwhile = λ i. i } }

abbrev joining : Counters
joining = Replica.new (replicate 16 1) 3 ((b'a' ∷ []) ∷ (b'b' ∷ []) ∷ [])

abbrev answer : Answer
answer = record { ready = true; formed = true; genesis_secs = none; counters = [] }

-- A round that nobody answers changes nothing, and the loop goes on.
waited : sync_until_ready toy json toy_backend joining (unheard ∷ []) ≡ (joining, false)
unfolding sync_until_ready ends sync_once Replica.new Replica.read_request counters_key Replica.sign
    Replica.round finish_sync
waited = refl

suffices : Suffices toy json toy_backend joining heard
unfolding Replica.round Replica.read_request counters_key Replica.sign read_domain Replica.new
    Replica.collect Replica.replies_to Replica.reply_of Replica.usable Replica.open_signed
    Replica.decode_id answer_domain ready_answers merge_all with_root lit mero_tee.Text.as_bytes
    mero_tee.Counters.merge_map
suffices = record {
  nonce_b64 = [];
  signed = record { body = []; mac_b64 = toy.hmac key read_domain };
  asks = refl;
  s' = joining;
  answers = answer ∷ answer ∷ [];
  answered = refl;
  enough = omega arith;
  fits = refl;
}

sync_until_ready-ends_example :
    ((sync_until_ready toy json toy_backend joining (unheard ∷ heard ∷ [])).1 ≡ true)
    × ((sync_until_ready toy json toy_backend joining (unheard ∷ heard ∷ [])).0.inner.ready ≡ true)
sync_until_ready-ends_example =
    sync_until_ready-ends toy json toy_backend joining (unheard ∷ []) [] heard (rw waited suffices)
