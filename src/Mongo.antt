-- ===== src/Mongo.antt =====
-- mongo/: the toolkit over the MongoDB driver.
pub mod Collection
pub mod Client
pub mod Repository
pub mod Bson
pub mod Dates
pub mod Entity
pub mod ObjectId
pub mod Patterns
