-- ===== src/Mongo/Entity.antt =====
-- mongo/entity.go and mongo/fetchresult.go: the base of the documents, the interface that the
-- repository's documents satisfy, and a page with the number of all matches.
use core_shared.Base.{Text, List, ℤ}
use core_shared.Calendar.{Time}

pub record Entity : Type 0 where
  pub id : Text
  pub code : Text
  pub name : Text
  pub description : Text
  pub created_by : Text
  pub created_date : Time
  pub last_modified_by : Text
  pub last_modified : Time
  pub status : Text

unfoldable pub get_code : Entity → Text
get_code e = e.code

unfoldable pub get_id : Entity → Text
get_id e = e.id

-- The interface, of the type `T` of the documents.
pub record Document (T : Type 0) : Type 0 where
  pub get_id : T → Text
  pub get_code : T → Text

abbrev pub entity_document : Document Entity
entity_document = record { get_id = get_id; get_code = get_code }

pub record FetchResult (T : Type 0) : Type 0 where
  pub count : ℤ
  pub models : List T
