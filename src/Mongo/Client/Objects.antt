-- ===== src/Mongo/Client/Objects.antt =====
-- The pools and instances that a client of engine/mongo/mongo_client.cpp makes, and what its methods
-- find of them.
use cxxprogram.Prelude.{
  Bool, Bool-cases, List, Option, Option-cases, ap, arith, false, if◌then◌else◌, inl, inr, none,
  not, refl, some, subst, sym, true, ℕ, ◌&&◌, ◌+◌, ◌-◌, ◌<◌, ◌∙◌, ◌≡◌, ◌⊎◌,
}
use cxxprogram.Mongo.Client.{
  Driver, Request, Reply, answered, thrown, MongoClient, Outcome, returns, throws, faults,
  set_host_name, set_port, is_set, delete_instance, install, connect_to_host, replied, ask_server,
  ask_client, ask, count_document, uri, is_empty, collection, new, destroy,
}

module _ (D : Driver) where
  -- A call of a method, and the client after it, where the method came back, by a result or by an
  -- exception.
  pub data Call : Type 0 where
    sets_host_name sets_port : List ℕ → Call
    connects : Call
    asks : Request D.Document D.Options → Call
    counts : List ℕ → List ℕ → D.Document → D.Options → Call

  abbrev pub after : {A : Type 0} → Outcome D A → Option (MongoClient D)
  after (returns a m) = some m
  after (throws m) = some m
  after faults = none

  abbrev pub call : MongoClient D → Call → Option (MongoClient D)
  call m (sets_host_name host) = some (set_host_name D m host)
  call m (sets_port port) = some (set_port D m port)
  call m connects = after (connect_to_host D m)
  call m (asks r) = after (ask D m r)
  call m (counts db coll filter options) = after (count_document D m db coll filter options)

  pub data Calls (m : MongoClient D) : MongoClient D → Type 0 where
    begun : Calls m m
    called : {n o : MongoClient D} (c : Call) → Calls m n → call n c ≡ some o → Calls m o

  -- A pool is there from the first one on; no pool has been deleted, and every instance but that in
  -- use.
  pub record IsCounted (m : MongoClient D) : Type 0 where
    pub pool :
        ((m.pool ≡ none) × (m.pools_made ≡ 0)) ⊎ ((is_set m.pool ≡ true) × (0 < m.pools_made))
    pub pools : m.pools_deleted ≡ 0
    pub instances : m.instances_made ≡ m.instances_deleted + (if m.db_instance then 1 else 0)

  -- What asking changes is the server alone.
  abbrev Kept : MongoClient D → Option (MongoClient D) → Type 0
  Kept m none = Unit {0}
  Kept m (some n) = IsCounted m → IsCounted n

  delete_instance-IsCounted : (m : MongoClient D) → IsCounted m → IsCounted (delete_instance D m)
  unfolding delete_instance
  delete_instance-IsCounted m v = go m.db_instance refl
    where
      go :
          (b : Bool)
          → m.db_instance ≡ b
          → IsCounted (
              if b
              then record m { db_instance = false; instances_deleted = m.instances_deleted + 1 }
              else m)
      go true e = record { pool = v.pool; pools = v.pools; instances = ground (arith, v.instances) }
      go false e = record { pool = v.pool; pools = v.pools; instances = v.instances }

  delete_instance-none : (m : MongoClient D) → (delete_instance D m).db_instance ≡ false
  unfolding delete_instance
  delete_instance-none m = ground arith

  install-IsCounted :
      (m : MongoClient D) (p : D.Pool)
      → m.db_instance ≡ false
      → IsCounted m
      → IsCounted (install D m p)
  unfolding install
  install-IsCounted m p e v = record {
    pool = inr (refl, omega arith);
    pools = v.pools;
    instances = ground (arith, v.instances);
  }

  connect_to_host-Kept : (m : MongoClient D) → Kept m (after (connect_to_host D m))
  unfolding connect_to_host
  connect_to_host-Kept m =
      go (not (is_empty m.host_name) && not (is_empty m.port))
        (D.make_pool (uri m.host_name m.port))
    where
      go :
          (b : Bool) (o : Option D.Pool)
          → Kept m (
              after (
                if b
                then elim o [
                  | none ↦ throws (delete_instance D m)
                  | some p ↦
                      returns (is_set (D.acquire m.server p)) (install D (delete_instance D m) p)
                ]
                else returns false m))
      go false o = λ v. v
      go true none = λ v. delete_instance-IsCounted m v
      go true (some p) = λ v.
          install-IsCounted (delete_instance D m) p (delete_instance-none m)
            (delete_instance-IsCounted m v)

  serve-IsCounted :
      (m : MongoClient D) (s : D.Server) → IsCounted m → IsCounted (record m { server = s })
  serve-IsCounted m s v = record { pool = v.pool; pools = v.pools; instances = v.instances }

  ask_server-Kept :
      (b : Bool) (m : MongoClient D) (c : D.Client) (r : Request D.Document D.Options)
      → Kept m (after (ask_server D b m c r))
  ask_server-Kept false m c r = λ v. v
  ask_server-Kept true m c r = go (D.request m.server c r)
    where
      go :
          (a : Reply D.Answer × D.Server)
          → Kept m (after (replied D (record m { server = a.1 }) a.0))
      go (answered a, s) = serve-IsCounted m s
      go (thrown, s) = serve-IsCounted m s

  ask_client-Kept :
      (m : MongoClient D) (o : Option D.Client) (r : Request D.Document D.Options)
      → Kept m (after (ask_client D m o r))
  ask_client-Kept m none r = λ v. v
  ask_client-Kept m (some c) r = ask_server-Kept m.db_instance m c r

  ask-none :
      (m : MongoClient D) (r : Request D.Document D.Options) → m.pool ≡ none → ask D m r ≡ faults
  unfolding ask
  ask-none m r e =
      ap (λ o. elim o [ none ↦ faults | some p ↦ ask_client D m (D.acquire m.server p) r ]) e

  ask-some :
      (m : MongoClient D) (p : D.Pool) (r : Request D.Document D.Options)
      → m.pool ≡ some p
      → ask D m r ≡ ask_client D m (D.acquire m.server p) r
  unfolding ask
  ask-some m p r e =
      ap (λ o. elim o [ none ↦ faults | some q ↦ ask_client D m (D.acquire m.server q) r ]) e

  ask-Kept : (m : MongoClient D) (r : Request D.Document D.Options) → Kept m (after (ask D m r))
  ask-Kept m r = elim (Option-cases m.pool) [
    | inl e ↦ subst (λ o. Kept m (after o)) (sym (ask-none m r e)) tt
    | inr (p, e) ↦
        subst (λ o. Kept m (after o)) (sym (ask-some m p r e))
          (ask_client-Kept m (D.acquire m.server p) r)
  ]

  count_document-Kept :
      (m : MongoClient D) (db coll : List ℕ) (filter : D.Document) (options : D.Options)
      → Kept m (after (count_document D m db coll filter options))
  unfolding count_document
  count_document-Kept m db coll filter options = go m.pool
    where
      entry :
          (o : Option D.Client)
          → Kept m (
              after (elim o [
                | none ↦ faults
                | some c ↦
                    returns
                      (D.count_documents m.server c (collection db coll) filter options).0
                      (record m {
                        server =
                            (D.count_documents m.server c (collection db coll) filter options).1;
                      })
              ]))
      entry none = tt
      entry (some c) = λ v. serve-IsCounted m _ v

      go :
          (o : Option D.Pool)
          → Kept m (
              after (elim o [
                | none ↦ faults
                | some p ↦ elim (D.acquire m.server p) [
                  | none ↦ faults
                  | some c ↦
                      returns
                        (D.count_documents m.server c (collection db coll) filter options).0
                        (record m {
                          server =
                              (D.count_documents m.server c (collection db coll) filter options).1;
                        })
                ]
              ]))
      go none = tt
      go (some p) = entry (D.acquire m.server p)

  call-Kept : (m : MongoClient D) (c : Call) → Kept m (call m c)
  unfolding set_host_name set_port
  call-Kept m (sets_host_name host) =
      λ v. record { pool = v.pool; pools = v.pools; instances = v.instances }
  call-Kept m (sets_port port) =
      λ v. record { pool = v.pool; pools = v.pools; instances = v.instances }
  call-Kept m connects = connect_to_host-Kept m
  call-Kept m (asks r) = ask-Kept m r
  call-Kept m (counts db coll filter options) = count_document-Kept m db coll filter options

  Calls-IsCounted : {m n : MongoClient D} → IsCounted m → Calls m n → IsCounted n
  Calls-IsCounted v begun = v
  Calls-IsCounted v (called {n = n} c calls e) =
      subst (Kept n) e (call-Kept n c) (Calls-IsCounted v calls)

  new-IsCounted : (s : D.Server) (host port : List ℕ) → IsCounted (new D s host port)
  unfolding new
  new-IsCounted s host port = record { pool = inl (refl, refl); pools = refl; instances = refl }

  -- After any calls on a new client, exceptions among them, the destructor leaves no instance; but of
  -- the pools that were made it deletes only the last, and the others stay.
  pub destroy-leaks :
      (s : D.Server) (host port : List ℕ) {m : MongoClient D}
      → Calls (new D s host port) m
      → ((destroy D m).instances_made ≡ (destroy D m).instances_deleted)
        × ((destroy D m).pools_made ≡ (destroy D m).pools_deleted + (m.pools_made - 1))
  unfolding destroy
  destroy-leaks s host port {m = m} calls =
      let v = Calls-IsCounted (new-IsCounted s host port) calls in (v.instances, go v.pool v.pools)
    where
      go :
          ((m.pool ≡ none) × (m.pools_made ≡ 0)) ⊎ ((is_set m.pool ≡ true) × (0 < m.pools_made))
          → m.pools_deleted ≡ 0
          → m.pools_made ≡ m.pools_deleted + (if is_set m.pool then 1 else 0) + (m.pools_made - 1)
      go (inl (e, n)) d = ground (arith, ap is_set e)
      go (inr (e, n)) d = ground arith

  -- With a pool: the request goes to the server by a client, if there are a client and an instance.
  abbrev pub Asked : MongoClient D → Request D.Document D.Options → D.Pool → Type 0
  Asked m r p =
      ((D.acquire m.server p ≡ none) × (ask D m r ≡ returns none m))
      ⊎ ((m.db_instance ≡ false) × (ask D m r ≡ returns none m))
      ⊎ ((c : D.Client) × (D.acquire m.server p ≡ some c)
          × (m.db_instance ≡ true)
          × (ask D m r
              ≡ replied D (record m { server = (D.request m.server c r).1 })
                  (D.request m.server c r).0))

  -- A client that never made a pool faults at every request. One that did has a pool: where this gives
  -- a client and the instance is there, the server gets the request, once, and its answer or its
  -- exception comes back; else the answer is empty, and the server is not asked.
  pub ask_lem :
      (s : D.Server) (host port : List ℕ) {m : MongoClient D} (r : Request D.Document D.Options)
      → Calls (new D s host port) m
      → ((m.pools_made ≡ 0) × (ask D m r ≡ faults))
        ⊎ ((p : D.Pool) × (m.pool ≡ some p) × Asked m r p)
  ask_lem s host port {m = m} r calls =
      let v = Calls-IsCounted (new-IsCounted s host port) calls in
      elim (Option-cases m.pool) [
        | inl e ↦ inl (unmade v.pool e, ask-none m r e)
        | inr (p, e) ↦ inr (p, e, entry p (ask-some m p r e))
      ]
    where
      unmade :
          ((m.pool ≡ none) × (m.pools_made ≡ 0)) ⊎ ((is_set m.pool ≡ true) × (0 < m.pools_made))
          → m.pool ≡ none
          → m.pools_made ≡ 0
      unmade (inl (e, n)) f = n
      unmade (inr (e, n)) f = cc (sym e ∙ ap is_set f)

      entry : (p : D.Pool) → ask D m r ≡ ask_client D m (D.acquire m.server p) r → Asked m r p
      entry p e = elim (Option-cases (D.acquire m.server p)) [
        | inl f ↦ inl (f, e ∙ ap (λ o. ask_client D m o r) f)
        | inr (c, f) ↦
            let asked = e ∙ ap (λ o. ask_client D m o r) f in
            elim (Bool-cases m.db_instance) [
              | inl h ↦ inr (inr (c, f, h, asked ∙ ap (λ b. ask_server D b m c r) h))
              | inr h ↦ inr (inl (h, asked ∙ ap (λ b. ask_server D b m c r) h))
            ]
      ]
