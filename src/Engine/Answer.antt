-- ===== src/Engine/Answer.antt =====
-- What the methods of src/python/hypervec_server_engine.py answer to a request, of whichever protocol:
-- the dictionaries that they return, without the entries that repeat the request.
use hyper_vector.Common.{ℕ, String, Bool, List, Option}
use hyper_vector.Meta.{CollectionMeta}
use hyper_vector.Engine.Lifecycle.{MetaResponse}
use hyper_vector.Engine.Flush.{Flushed}
use hyper_vector.Engine.Search.{Hit}
use hyper_vector.Engine.Upload.{Sync}

-- A file that is sent with what describes it: an index, or a bundle with its format.
pub record Download : Type 0 where
  pub content : List ℕ
  pub version : Option ℕ
  pub checksum : Option String
  pub size : Option ℕ
  pub format : Option String

pub data Answer : Type 0 where
  healthy : Answer
  names : List String → Answer
  descriptions : List MetaResponse → Answer
  existing : Bool → Answer
  described : MetaResponse → Answer
  dropped : Bool → Answer
  inserted : ℕ × ℕ → Answer
  flushed : Flushed → Answer
  loaded : Answer
  closed : Answer
  found : List (List Hit) → Answer
  versioned : CollectionMeta → Answer
  checked : Sync → Answer
  download : Download → Answer
  purged_rows : ℕ → Answer
