-- ===== src/Mongo/Client.antt =====
-- engine/mongo/mongo_client.h and mongo_client.cpp. mongocxx is not part of the repository: `Driver`
-- has the calls that the code makes of it, with the server left to it. The objects that the client
-- makes with `new` and deletes are counted.
pub mod Objects
mod Tests
use cxxprogram.Prelude.{
  Bool, List, Option, [], false, if◌then◌else◌, none, not, some, true, until_zero, ℕ, ◌&&◌, ◌++◌,
  ◌+◌, ◌∷◌,
}
use cxxprogram.Prelude.Decimal.{decimal}

-- `(*client)[db][coll]`.
pub record Collection : Type 0 where
  pub db : List ℕ
  pub coll : List ℕ

-- What is asked of a collection: a filter or a document, for an update the new one, and the options.
pub data Request (Document Options : Type 0) : Type 0 where
  find_one_in find_in insert_one_in delete_one_in delete_many_in :
      Collection → Document → Options → Request Document Options
  update_one_in update_many_in :
      Collection → Document → Document → Options → Request Document Options

-- A result, which may be empty, or an exception.
pub data Reply (Answer : Type 0) : Type 0 where
  answered : Option Answer → Reply Answer
  thrown : Reply Answer

pub record Driver : Type 1 where
  pub Pool : Type 0
  pub Client : Type 0
  pub Document : Type 0
  pub Options : Type 0
  pub Answer : Type 0
  pub Server : Type 0
  -- `pool(uri)`; `none` is an exception.
  pub make_pool : List ℕ → Option Pool
  -- `none` is an empty entry.
  pub acquire : Server → Pool → Option Client
  -- The document `{ "$set": value }`.
  pub set_document : Document → Document
  pub request : Server → Client → Request Document Options → Reply Answer × Server
  pub count_documents : Server → Client → Collection → Document → Options → ℕ × Server

abbrev pub is_empty : List ℕ → Bool
is_empty [] = true
is_empty (c ∷ s) = false

abbrev pub is_set {ℓ} : {A : Type ℓ} → Option A → Bool
is_set none = false
is_set (some a) = true

-- The members `minPoolSize` and `maxPoolSize`.
abbrev pub min_pool_size : ℕ
min_pool_size = 0

abbrev pub max_pool_size : ℕ
max_pool_size = 100

-- "mongodb://", ":", "/?minPoolSize=" and "&maxPoolSize=".
unfoldable pub uri : List ℕ → List ℕ → List ℕ
uri host port =
    (109 ∷ 111 ∷ 110 ∷ 103 ∷ 111 ∷ 100 ∷ 98 ∷ 58 ∷ 47 ∷ 47 ∷ [])
    ++ (host
        ++ (58
            ∷ (port
                ++ ((47 ∷ 63 ∷ 109 ∷ 105 ∷ 110 ∷ 80 ∷ 111 ∷ 111 ∷ 108 ∷ 83 ∷ 105 ∷ 122 ∷ 101 ∷ 61
                      ∷ [])
                    ++ (decimal min_pool_size
                        ++ ((38 ∷ 109 ∷ 97 ∷ 120 ∷ 80 ∷ 111 ∷ 111 ∷ 108 ∷ 83 ∷ 105 ∷ 122 ∷ 101 ∷ 61
                              ∷ [])
                            ++ decimal max_pool_size))))))

-- The names are passed as `c_str()`.
unfoldable pub collection : List ℕ → List ℕ → Collection
collection db coll = record { db = until_zero db; coll = until_zero coll }

module _ (D : Driver) where
  open D use {
    Pool, Client, Document, Options, Answer, Server, make_pool, acquire, set_document, request,
    count_documents,
  }

  -- The members of `mongo_client`, the server, and how many objects were made and deleted.
  pub record MongoClient : Type 0 where
    pub host_name : List ℕ
    pub port : List ℕ
    -- Whether `m_dbInstance` is set.
    pub db_instance : Bool
    pub pool : Option Pool
    pub server : Server
    pub pools_made : ℕ
    pub pools_deleted : ℕ
    pub instances_made : ℕ
    pub instances_deleted : ℕ

  -- A result with the client, an exception that leaves the method, or a null pointer followed.
  pub data Outcome (A : Type 0) : Type 0 where
    returns : A → MongoClient → Outcome A
    throws : MongoClient → Outcome A
    faults : Outcome A

  -- `mongo_client(hostName, port)`.
  unfoldable pub new : Server → List ℕ → List ℕ → MongoClient
  new server host port = record {
    host_name = host;
    port = port;
    db_instance = false;
    pool = none;
    server = server;
    pools_made = 0;
    pools_deleted = 0;
    instances_made = 0;
    instances_deleted = 0;
  }

  unfoldable pub set_host_name : MongoClient → List ℕ → MongoClient
  set_host_name m host = record m { host_name = host }

  unfoldable pub set_port : MongoClient → List ℕ → MongoClient
  set_port m port = record m { port = port }

  unfoldable pub delete_instance : MongoClient → MongoClient
  delete_instance m =
      if m.db_instance
      then record m { db_instance = false; instances_deleted = m.instances_deleted + 1 }
      else m

  -- The new pool, which takes the place of the old one, and the new instance.
  unfoldable pub install : MongoClient → Pool → MongoClient
  install m p = record m {
    pool = some p;
    pools_made = m.pools_made + 1;
    db_instance = true;
    instances_made = m.instances_made + 1;
  }

  unfoldable pub connect_to_host : MongoClient → Outcome Bool
  unfolding delete_instance install
  connect_to_host m =
      if not (is_empty m.host_name) && not (is_empty m.port)
      then elim (make_pool (uri m.host_name m.port)) [
        | none ↦ throws (delete_instance m)
        | some p ↦ returns (is_set (acquire m.server p)) (install (delete_instance m) p)
      ]
      else returns false m

  abbrev pub replied : MongoClient → Reply Answer → Outcome (Option Answer)
  replied m (answered a) = returns a m
  replied m thrown = throws m

  abbrev pub ask_server :
      Bool → MongoClient → Client → Request Document Options → Outcome (Option Answer)
  ask_server false m c r = returns none m
  ask_server true m c r =
      let (reply, server) = request m.server c r in replied (record m { server = server }) reply

  abbrev pub ask_client :
      MongoClient → Option Client → Request Document Options → Outcome (Option Answer)
  ask_client m none r = returns none m
  ask_client m (some c) r = ask_server m.db_instance m c r

  -- What the methods share: the client of the pool, the test, and the call.
  unfoldable pub ask : MongoClient → Request Document Options → Outcome (Option Answer)
  ask m r = elim m.pool [ none ↦ faults | some p ↦ ask_client m (acquire m.server p) r ]

  unfoldable pub find_one :
      MongoClient → List ℕ → List ℕ → Document → Options → Outcome (Option Answer)
  unfolding ask collection
  find_one m db coll filter options = ask m (find_one_in (collection db coll) filter options)

  -- `nullptr` is `none`.
  unfoldable pub find : MongoClient → List ℕ → List ℕ → Document → Options → Outcome (Option Answer)
  unfolding ask collection
  find m db coll filter options = ask m (find_in (collection db coll) filter options)

  unfoldable pub insert_one :
      MongoClient → List ℕ → List ℕ → Document → Options → Outcome (Option Answer)
  unfolding ask collection
  insert_one m db coll doc options = ask m (insert_one_in (collection db coll) doc options)

  unfoldable pub update_one :
      MongoClient → List ℕ → List ℕ → Document → Document → Options → Outcome (Option Answer)
  unfolding ask collection
  update_one m db coll filter value options =
      ask m (update_one_in (collection db coll) filter (set_document value) options)

  unfoldable pub update_many :
      MongoClient → List ℕ → List ℕ → Document → Document → Options → Outcome (Option Answer)
  unfolding ask collection
  update_many m db coll filter value options =
      ask m (update_many_in (collection db coll) filter (set_document value) options)

  unfoldable pub delete_one :
      MongoClient → List ℕ → List ℕ → Document → Options → Outcome (Option Answer)
  unfolding ask collection
  delete_one m db coll filter options = ask m (delete_one_in (collection db coll) filter options)

  unfoldable pub delete_many :
      MongoClient → List ℕ → List ℕ → Document → Options → Outcome (Option Answer)
  unfolding ask collection
  delete_many m db coll filter options = ask m (delete_many_in (collection db coll) filter options)

  -- Without the test.
  unfoldable pub count_document : MongoClient → List ℕ → List ℕ → Document → Options → Outcome ℕ
  unfolding collection
  count_document m db coll filter options = elim m.pool [
    | none ↦ faults
    | some p ↦ elim (acquire m.server p) [
      | none ↦ faults
      | some c ↦
          let (n, server) = count_documents m.server c (collection db coll) filter options in
          returns n (record m { server = server })
    ]
  ]

  -- `~mongo_client`.
  unfoldable pub destroy : MongoClient → MongoClient
  destroy m = record m {
    pool = none;
    pools_deleted = m.pools_deleted + (if is_set m.pool then 1 else 0);
    instances_deleted = m.instances_deleted + (if m.db_instance then 1 else 0);
  }
