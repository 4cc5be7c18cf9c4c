-- ===== src/Pip/External.antt =====
-- What the pip modules take from elsewhere: `urllib.parse` and the `packaging` library.
use cachi.Base.{String, Option, List}
use cachi.Errors.{Result}

-- What `urllib.parse.urlparse` returns.
pub record ParsedUrl : Type 0 where
  pub scheme : String
  pub netloc : String
  pub path : String
  pub params : String
  pub query : String
  pub fragment : String

-- What `packaging.requirements.Requirement` holds. The specifiers are pairs of an operator and a
-- version, the marker is its text.
pub record Req : Type 0 where
  pub name : String
  pub specifier : List (String × String)
  pub extras : List String
  pub marker : Option String

-- `urlparse` raises a `ValueError` on some texts; `parse` gives `none` for `InvalidRequirement`.
pub record External : Type 0 where
  pub urlparse : String → Result ParsedUrl
  pub unquote : String → String
  pub parse : String → Option Req
  pub canonicalize_name : String → String
