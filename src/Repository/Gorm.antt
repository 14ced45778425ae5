-- ===== src/Repository/Gorm.antt =====
-- gorm as the repositories use it: a query is what a chain of Where, Select, Order and Limit builds,
-- and a table is what takes one. gorm, the driver and PostgreSQL are parameters.
pub mod Laws
use audiax_backend.Common.{ℕ, Bool, Option, none, some, List, []}
use audiax_backend.Common.Text.{Text}
use audiax_backend.Exec.{Exec}

-- `column = ?` with its argument, and a Boolean column by itself; a list is joined by "and".
pub data Condition : Type 0 where
  equal : Text → Text → Condition
  flag : Text → Condition

-- what Update writes
pub data Value : Type 0 where
  text_value : Text → Value
  bool_value : Bool → Value

-- No selected column stands for all of them.
pub record Query : Type 0 where
  pub selected : List Text
  pub conditions : List Condition
  pub order_desc : Option Text
  pub limit : Option ℕ

abbrev pub everything : Query
everything = record { selected = []; conditions = []; order_desc = none; limit = none }

-- db.Where
abbrev pub filtered : List Condition → Query → Query
filtered conditions q = record q { conditions = conditions }

-- Order("<column> desc")
abbrev pub newest_first : Text → Query → Query
newest_first column q = record q { order_desc = some column }

abbrev pub limited : ℕ → Query → Query
limited n q = record q { limit = some n }

-- db.Select
abbrev pub selecting : List Text → Query → Query
selecting columns q = record q { selected = columns }

-- The finishers, at the table of one entity: db.Create, Take, Find, Model(entity).Updates,
-- Model(&Entity{}).Where(...).Update and Delete. `create` and `updates` give the struct back as gorm
-- leaves it.
pub record Table (A W : Type 0) : Type 0 where
  pub create : A → Exec W A
  pub take : Query → Exec W A
  pub find : Query → Exec W (List A)
  pub updates : A → List (Text × Text) → Exec W A
  pub update : Query → Text → Value → Exec W Unit
  pub delete : A → Exec W Unit
