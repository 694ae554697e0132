-- ===== src/Engine/Server.antt =====
-- The whole server of src/python/hypervec_server_engine.py: the entries of all collections, the SQLite
-- database with every table under its name, the directories and what is in memory; and how a method
-- of one collection acts on it. Also `list_collections` and `describe_collections`.
pub mod Frame
pub mod Order
pub mod Keyed
pub mod Named
pub mod Names
use hyper_vector.Common.{
  ℕ, String, Bool, true, false, ◌||◌, ◌&&◌, Option, none, some, List, [], ◌∷◌, map, ltb, ◌==◌,
  if◌then◌else◌,
}
use hyper_vector.Common.Dict
use hyper_vector.Common.Dict.{Dict, string_key, codes_key}
use hyper_vector.Common.Result.{Result, ok, err}
use hyper_vector.Common.Sort.{sort_by}
use hyper_vector.Common.Exec.{Exec}
use hyper_vector.Names.{codes, validate_collection_name}
use hyper_vector.Names.Tables.{live_table, import_table, identifier}
use hyper_vector.Meta.{CollectionMeta}
use hyper_vector.Scalar.{Tables, Table}
use hyper_vector.Engine.State.{Collection, Dir, empty_dir, Cache, Method}
use hyper_vector.Engine.Lifecycle.{MetaResponse, meta_response}

pub record Server (Index : Type 0) : Type 0 where
  -- The entries of the metadata store.
  pub metas : Dict String CollectionMeta
  -- The tables of the database, by the identifiers that SQLite compares.
  pub db : Dict (List ℕ) Table
  pub dirs : Dict String Dir
  -- `_indexes` and `_scalar_cache`
  pub indexes : Dict String Index
  pub scalar_cache : Dict String Cache

-- A directory that does not exist holds no file.
abbrev pub dir_or_empty : Option Dir → Dir
dir_or_empty none = empty_dir
dir_or_empty (some d) = d

module _ {Index : Type 0} where
  -- What a method of the collection `name` reads.
  unfoldable pub view : String → Server Index → Collection Index
  unfolding identifier
  view name s = record {
    meta = Dict.get s.metas name;
    tables = record {
      live = Dict.get s.db (live_table (codes name));
      staging = Dict.get s.db (import_table (codes name));
    };
    dir = dir_or_empty (Dict.get s.dirs name);
    loaded = Dict.get s.indexes name;
    cache = Dict.get s.scalar_cache name;
  }

  -- What it writes.
  unfoldable pub put_back : String → Collection Index → Server Index → Server Index
  unfolding identifier
  put_back name c s = record {
    metas = Dict.put? s.metas name c.meta;
    db =
        Dict.put? (Dict.put? s.db (live_table (codes name)) c.tables.live)
          (import_table (codes name)) c.tables.staging;
    dirs = Dict.put s.dirs name c.dir;
    indexes = Dict.put? s.indexes name c.loaded;
    scalar_cache = Dict.put? s.scalar_cache name c.cache;
  }

  -- A method, once the name has been checked.
  abbrev pub call_checked :
      {A : Type 0} → Result (List ℕ) → String → Method Index A → Exec (Server Index) A
  call_checked (err e) name method s = (err e, s)
  call_checked (ok _) name method s = let (r, c) = method (view name s) in (r, put_back name c s)

  -- A call of an engine method: the name is checked before anything else.
  unfoldable pub call : {A : Type 0} → String → Method Index A → Exec (Server Index) A
  unfolding view put_back validate_collection_name
  call name method s = call_checked (validate_collection_name (codes name)) name method s

  -- A server reads the bundle that it sends, and then unlinks it.
  unfoldable pub unlink_bundle : String → Server Index → Server Index
  unlink_bundle name s = record s {
    dirs =
        Dict.put s.dirs name (record (dir_or_empty (Dict.get s.dirs name)) { export_tmp = none });
  }

module _ {Index : Type 0} where
  unfoldable pub list_collections : Server Index → List String
  unfolding sort_by
  list_collections s = sort_by codes (map (λ m. m.collection_name) (Dict.values s.metas))

  unfoldable pub describe_collections : Server Index → List MetaResponse
  unfolding sort_by meta_response
  describe_collections s =
      map meta_response (sort_by (λ m. codes m.collection_name) (Dict.values s.metas))
