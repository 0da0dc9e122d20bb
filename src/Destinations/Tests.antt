-- ===== src/Destinations/Tests.antt =====
-- A REST API that answers with the codes of a list, and the memory store.
use vortara.Base.{
  ℕ, pos, String, Bool, true, false, List, [], ◌∷◌, none, ◌+◌, length, ◌≡◌, refl, arith, All,
  lookup, lookup-insert_self, insert,
}
use vortara.Destinations.RestApi.{Network, RestApi, Wire}
use vortara.Destinations.RestApi.Context.{ContextLaws}
use vortara.Destinations.Loading.{Loading}
use vortara.Destinations.RestApi.Load.{load}
use vortara.Destinations.RestApi.Load.Ledger.{load-accounted}
use vortara.Destinations.Loading.Marks.{RemembersMarks, Quiet, Delivered}
use vortara.Destinations.RestApi.Load.Marks.{load-again}
use vortara.State.Memory.{delivery_key}
use vortara.Errors.{Result, ok, err, external}
use vortara.Http.Breaker.{new_circuit_breaker, allow_request, record_failure, record_success}
use vortara.Row.{Row}
use vortara.State.Memory.{MemoryStore, memory_store, new_memory_store, is_delivered, mark_delivered}

abbrev next_code : List ℕ → List ℕ × Result ℕ
next_code [] = ([], err (external "EOF"))
next_code (c ∷ cs) = (cs, ok c)

abbrev pub net : Network (List ℕ)
net = record {
  poll = λ o. (o, none);
  now = λ o. (o, 0);
  wait = λ o. (o, none);
  sleep = λ d o. (o, none);
  refuse = λ method url. none;
  canonical = λ s. s;
  apply_auth = λ req o. (o, ok req);
  send = λ req o. next_code o;
  marshal = λ p. ok "{}";
}

abbrev pub api : RestApi
api = record {
  method = "POST";
  url = "https://api.example.com";
  headers = ("X-Team", "crm") ∷ [];
  retry = record { attempts = pos 2; backoff_ms = pos 10; backoff_on = []; drop_on = [] };
  limited = true;
  authenticated = true;
}

abbrev pub row_of : String → Row
row_of id = record { id = id; primary_key = id; fields = []; watermark = 0; metadata = [] }

abbrev two_rows : List Row
two_rows = row_of "a" ∷ row_of "b" ∷ []

abbrev pub wire : List ℕ → Wire (List ℕ)
wire codes = record { breaker = new_circuit_breaker (pos 3) (pos 0); outside = codes }

-- One row after a retry, the other dropped.
mixed :
    (load net memory_store api "crm" "rest"
      (λ rows. rows)
      two_rows
      (wire (503 ∷ 200 ∷ 404 ∷ []))
      new_memory_store).0.result.loaded
    ≡ 1
unfolding load is_delivered new_memory_store mark_delivered lookup new_circuit_breaker allow_request
    record_failure record_success
mixed = refl

never : List ℕ → Bool
never o = false

never_done : ContextLaws net never
unfolding never
never_done = record {
  poll_done = λ o. refl;
  sleep_done = λ d o h. h;
  poll = λ o h. h;
  now = λ o h. h;
  wait = λ o h. h;
  sleep = λ d o h. h;
  apply_auth = λ req o h. h;
  send = λ req o h. h;
}

abbrev pub one_by_one : List Row → List Row
one_by_one rows = rows

abbrev delivered_twice : Loading (List ℕ) MemoryStore
delivered_twice =
    (load net memory_store api "crm" "rest" one_by_one two_rows (wire (503 ∷ 200 ∷ 404 ∷ []))
      new_memory_store).0

no_error :
    load net memory_store api "crm" "rest" one_by_one two_rows
      (wire (503 ∷ 200 ∷ 404 ∷ []))
      new_memory_store
    ≡ (delivered_twice, none)
unfolding load is_delivered new_memory_store mark_delivered lookup new_circuit_breaker allow_request
    record_failure record_success
no_error = refl

load-accounted_example :
    delivered_twice.result.loaded
      + delivered_twice.result.skipped
      + length delivered_twice.result.errors
    ≡ 2
load-accounted_example =
    load-accounted net memory_store api "crm" "rest" never never_done one_by_one (λ rows. refl)
      two_rows (wire (503 ∷ 200 ∷ 404 ∷ [])) new_memory_store delivered_twice no_error

pub memory_remembers : RemembersMarks memory_store
unfolding is_delivered mark_delivered
memory_remembers s id n d h = ground (
  arith,
  lookup-insert_self (delivery_key id n d) true s.pending,
  lookup-insert_self (delivery_key id n d) true s.deliveries,
)

abbrev stored : MemoryStore
stored = mark_delivered new_memory_store "a" "crm" "rest"

stored-Delivered : All (Delivered memory_store "crm" "rest" stored) (row_of "a" ∷ [])
unfolding is_delivered new_memory_store mark_delivered lookup insert delivery_key
stored-Delivered = (refl, tt)

abbrev once : MemoryStore
once =
    (load net memory_store api "crm" "rest" one_by_one (row_of "a" ∷ []) (wire (503 ∷ 200 ∷ []))
      new_memory_store).0.store

one_loaded :
    (load net memory_store api "crm" "rest"
      (λ rows. rows)
      (row_of "a" ∷ [])
      (wire (503 ∷ 200 ∷ []))
      new_memory_store).0.result.loaded
    ≡ 1
unfolding load is_delivered new_memory_store mark_delivered lookup new_circuit_breaker allow_request
    record_failure record_success
one_loaded = refl

load-again_example :
    Quiet net
      (wire (200 ∷ []))
      once
      (load net memory_store api "crm" "rest" one_by_one (row_of "a" ∷ []) (wire (200 ∷ [])) once).0
load-again_example =
    load-again net memory_store api "crm" "rest" memory_remembers (row_of "a")
      (wire (503 ∷ 200 ∷ [])) (wire (200 ∷ [])) new_memory_store one_loaded
