-- ===== src/Mongo/Client/Tests.antt =====
-- A client of a driver that answers at once.
use cxxprogram.Prelude.{List, [], length, refl, some, ℕ, ◌+◌, ◌∷◌, ◌≡◌, ◌⊎◌}
use cxxprogram.Prelude.Decimal.{decimal}
use cxxprogram.Mongo.Client.{
  Driver, Request, update_one_in, update_one, answered, MongoClient, faults, new, uri, ask,
  delete_instance, install, connect_to_host, destroy, collection,
}
use cxxprogram.Mongo.Client.Objects.{Calls, begun, called, connects, Asked, destroy-leaks, ask_lem}

-- A server counts the requests, and answers with their number.
abbrev counter : Driver
counter = record {
  Pool = List ℕ;
  Client = ℕ;
  Document = ℕ;
  Options = ℕ;
  Answer = ℕ;
  Server = ℕ;
  make_pool = λ u. some u;
  acquire = λ s p. some 0;
  set_document = λ d. d + 100;
  request = λ s c r. (answered (some s), s + 1);
  count_documents = λ s c coll filter options. (s, s + 1);
}

-- Connected twice, to "h" and port "1".
abbrev twice : (m : MongoClient counter) × Calls counter (new counter 7 (104 ∷ []) (49 ∷ [])) m
unfolding new connect_to_host delete_instance install
twice = (_, called connects (called connects begun refl) refl)

abbrev twice_new : Calls counter (new counter 7 (104 ∷ []) (49 ∷ [])) twice.0
twice_new = twice.1

-- "mongodb://h:1/?minPoolSize=0&maxPoolSize=100" has 44 bytes.
uri_runs : length (uri (104 ∷ []) (49 ∷ [])) ≡ 44
unfolding uri decimal
uri_runs = refl

destroy-leaks_example :
    ((destroy counter twice.0).instances_made ≡ (destroy counter twice.0).instances_deleted)
    × ((destroy counter twice.0).pools_made ≡ (destroy counter twice.0).pools_deleted + 1)
unfolding twice
destroy-leaks_example = destroy-leaks counter 7 (104 ∷ []) (49 ∷ []) twice_new

-- One update, asked of the client.
abbrev setting : Request ℕ ℕ
setting = update_one_in (record { db = 97 ∷ []; coll = 98 ∷ [] }) 3 105 0

update_one_runs :
    update_one counter twice.0 (97 ∷ []) (98 ∷ 0 ∷ 1 ∷ []) 3 5 0 ≡ ask counter twice.0 setting
unfolding update_one collection
update_one_runs = refl

ask_lem_example :
    ((twice.0.pools_made ≡ 0) × (ask counter twice.0 setting ≡ faults))
    ⊎ ((p : List ℕ) × (twice.0.pool ≡ some p) × Asked counter twice.0 setting p)
ask_lem_example = ask_lem counter 7 (104 ∷ []) (49 ∷ []) setting twice_new
