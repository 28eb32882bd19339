-- ===== src/Queries/Model.antt =====
-- The rows of saved queries and exports, and the bodies of the requests.
use dgraphai.Prelude.{Bool, List, Option, String, ℕ}

pub record SavedQuery : Type 0 where
  pub id : String
  pub tenant_id : String
  pub created_by : Option String
  pub name : String
  pub description : String
  pub cypher : String
  pub params : List (String × String)
  pub tags : List String
  pub is_public : Bool
  pub is_pinned : Bool
  pub run_count : Option ℕ
  pub export_format : Option String
  pub export_schedule : Option String

pub record QueryExport : Type 0 where
  pub id : String
  pub query_id : String
  pub tenant_id : String
  pub status : String

pub record State : Type 0 where
  pub queries : List SavedQuery
  pub exports : List QueryExport

pub record SaveQueryRequest : Type 0 where
  pub name : String
  pub description : String
  pub cypher : String
  pub params : List (String × String)
  pub tags : List String
  pub is_public : Bool
  pub is_pinned : Bool
  pub export_format : Option String
  pub export_schedule : Option String

pub record UpdateQueryRequest : Type 0 where
  pub name : Option String
  pub description : Option String
  pub cypher : Option String
  pub params : Option (List (String × String))
  pub tags : Option (List String)
  pub is_public : Option Bool
  pub is_pinned : Option Bool
  pub export_format : Option String
  pub export_schedule : Option String

pub record RunQueryRequest : Type 0 where
  pub params : List (String × String)
  pub limit : ℕ
  pub export : Bool
