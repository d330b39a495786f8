-- ===== src/Store.antt =====
-- A table of the database behind Prisma, keyed by id: what the services rely on when they call
-- `findUnique`, `create` and `update` with `where: { id }`. The database is not part of the
-- repository, so the services take a table as a parameter.
pub mod Queries
pub mod InMemory
pub mod Writes
pub mod Always
use infra_inventory.Prelude.{◌≡◌, Option, none, some, [], String, str_eq, if◌then◌else◌}
use infra_inventory.Prelude.Dict
use infra_inventory.Prelude.Dict.{Dict, get-empty, get-set}

pub record Table (Row : Type 0) : Type 1 where
  pub Rows : Type 0
  pub empty : Rows
  pub find : String → Rows → Option Row
  -- writes the row of an id: an update, or the creation under a new id
  pub put : String → Row → Rows → Rows
  pub find-empty : (id : String) → find id empty ≡ none
  pub find-put :
      (id j : String) (row : Row) (rows : Rows)
      → find j (put id row rows) ≡ (if str_eq id j then some row else find j rows)

-- A table that meets the laws.
abbrev pub dict_table : (Row : Type 0) → Table Row
dict_table Row = record {
  Rows = Dict Row;
  empty = [];
  find = Dict.get;
  put = Dict.set;
  find-empty = get-empty;
  find-put = get-set;
}
