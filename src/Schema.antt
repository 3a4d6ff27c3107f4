-- ===== src/Schema.antt =====
-- internal/schema/types.go: the parts of a schema that a migration compares, and the column type
-- that a field type has in SQLite. The maps of a schema are maps by name. What the differ never
-- reads (the validation rules and options of a field, the buckets and functions of a schema) is
-- left out of the records. `Schema.Changes` and
-- `Schema.Differ` are internal/schema/differ.go.
pub mod Types
pub mod Changes
pub mod Differ
pub mod Same
pub mod Safe
pub mod Parts
mod Tests
use alyx.Prelude.{
  ℕ, String, Bool, true, false, not, ◌&&◌, ◌||◌, Option, none, some, List, [], ◌∷◌, ◌==◌, str_eq,
}
use alyx.Map.{GoMap}

pub data FieldType : Type 0 where
  id uuid string text rich_text int float bool timestamp json blob email url date select relation
        file :
      FieldType

-- The types are told apart by a number.
abbrev pub number : FieldType → ℕ
number id = 0
number uuid = 1
number string = 2
number text = 3
number rich_text = 4
number timestamp = 5
number json = 6
number email = 7
number url = 8
number date = 9
number select = 10
number relation = 11
number file = 12
number int = 13
number bool = 14
number float = 15
number blob = 16

abbrev pub same_type : FieldType → FieldType → Bool
same_type a b = number a == number b

pub data SqliteType : Type 0 where
  text_column integer_column real_column blob_column : SqliteType

unfoldable pub sqlite_type : FieldType → SqliteType
sqlite_type int = integer_column
sqlite_type bool = integer_column
sqlite_type float = real_column
sqlite_type blob = blob_column
sqlite_type _ = text_column

pub record Field : Type 0 where
  pub name : String
  pub type : FieldType
  pub primary : Bool
  pub unique : Bool
  pub nullable : Bool
  pub index : Bool
  pub default : String
  pub references : String

unfoldable pub has_default : Field → Bool
has_default f = not (str_eq f.default "")

pub record Index : Type 0 where
  pub name : String
  pub fields : List String
  pub unique : Bool
  pub order : String

pub record Rules : Type 0 where
  pub create : String
  pub read : String
  pub update : String
  pub delete : String
  pub download : String

pub record Collection : Type 0 where
  pub name : String
  pub fields : GoMap Field
  pub indexes : List Index
  pub rules : Option Rules

pub record Schema : Type 0 where
  pub version : ℕ
  pub collections : GoMap Collection
