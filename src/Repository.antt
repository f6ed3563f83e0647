-- ===== src/Repository.antt =====
-- What the services rely on of a TypeORM repository: rows by primary key, `findOne` by key, `find`
-- with its `where`, `order` and `take`, and `save`, which writes one row. The database itself is no
-- part of the repository, so this is an interface; failures of the connection are left out.
-- `Repository.Table` meets it by a list of rows.
pub mod Rows
pub mod Sorting
pub mod Table
use alive_human.Base.{
  ℕ, ◌≤◌, ◌≡◌, Bool, true, false, String, List, [], ◌∷◌, Option, none, some, All, str_eq,
  if◌then◌else◌, length, suc,
}

-- No two rows of a list have the same key.
abbrev pub Distinct : {Row : Type 0} → (Row → String) → List Row → Type 0
Distinct id_of [] = Unit {0}
Distinct id_of (r ∷ rs) = All (λ q. str_eq (id_of r) (id_of q) ≡ false) rs × Distinct id_of rs

pub record Repository (Row : Type 0) (id_of : Row → String) : Type 1 where
  pub Table : Type 0
  pub find_one : Table → String → Option Row
  -- The rows that pass a test, in an order (is the first row before the second?), at most so many.
  pub find : Table → (Row → Bool) → (Row → Row → Bool) → Option ℕ → List Row
  pub save : Table → Row → Table
  pub find_one-id : (t : Table) (key : String) (r : Row) → find_one t key ≡ some r → id_of r ≡ key
  pub find_one-save :
      (t : Table) (r : Row) (key : String)
      → find_one (save t r) key ≡ (if str_eq (id_of r) key then some r else find_one t key)
  pub find-All :
      (t : Table) (test : Row → Bool) (before : Row → Row → Bool) (limit : Option ℕ)
      → All (λ r. (test r ≡ true) × (find_one t (id_of r) ≡ some r)) (find t test before limit)
  pub find-distinct :
      (t : Table) (test : Row → Bool) (before : Row → Row → Bool) (limit : Option ℕ)
      → Distinct id_of (find t test before limit)
  pub find-length :
      (t : Table) (test : Row → Bool) (before : Row → Row → Bool) (n : ℕ)
      → length (find t test before (some n)) ≤ n
  pub find-empty :
      (t : Table) (test : Row → Bool) (before : Row → Row → Bool) (n : ℕ) (key : String) (r : Row)
      → find t test before (some (suc n)) ≡ []
      → find_one t key ≡ some r
      → test r ≡ false
