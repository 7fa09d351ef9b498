-- ===== src/Mongo.antt =====
-- engine/mongo: a client of the database on mongocxx.
pub mod Client
