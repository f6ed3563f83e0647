-- ===== src/Repository/Table.antt =====
-- A list of rows with distinct keys, as a repository.
use text.Mathlib.TextEquality.{eq_iff}
use alive_human.Base.{
  ◌≡◌, refl, Bool, true, false, String, List, [], ◌∷◌, Option, none, some, All, str_eq,
  if◌then◌else◌, filter, arith,
}
use alive_human.Repository.{Repository, Distinct}
use alive_human.Repository.Sorting.{
  sorted, sorted-All, limited, limited-All, length-take_le, sorted-nil, taken-nil, filter-Distinct,
  sorted-Distinct, limited-Distinct,
}

module _ {Row : Type 0} (id_of : Row → String) where
  unfoldable pub row_of : List Row → String → Option Row
  row_of [] key = none
  row_of (r ∷ rs) key = if str_eq (id_of r) key then some r else row_of rs key

  abbrev pub IsKeyed : List Row → Type 0
  IsKeyed [] = Unit {0}
  IsKeyed (r ∷ rs) = (row_of rs (id_of r) ≡ none) × IsKeyed rs

  unfoldable pub write : List Row → Row → List Row
  write [] new = new ∷ []
  write (r ∷ rs) new =
      let rest = write rs new in if str_eq (id_of r) (id_of new) then new ∷ rs else r ∷ rest

  pub row_of-write :
      (rs : List Row) (new : Row) (key : String)
      → row_of (write rs new) key ≡ (if str_eq (id_of new) key then some new else row_of rs key)
  unfolding row_of write
  row_of-write [] new key = refl
  row_of-write (r ∷ rs) new key = ground (
    arith,
    eq_iff (id_of r) (id_of new),
    eq_iff (id_of r) key,
    eq_iff (id_of new) key,
    row_of-write rs new key,
  )

  pub write-IsKeyed : (rs : List Row) (new : Row) → IsKeyed rs → IsKeyed (write rs new)
  unfolding row_of write
  write-IsKeyed [] new k = (refl, tt)
  write-IsKeyed (r ∷ rs) new k = ground (
    arith,
    eq_iff (id_of r) (id_of new),
    eq_iff (id_of new) (id_of r),
    row_of-write rs new (id_of r),
    write-IsKeyed rs new k.1,
  )

  pub row_of-id : (rs : List Row) (key : String) (r : Row) → row_of rs key ≡ some r → id_of r ≡ key
  unfolding row_of
  row_of-id [] key r e = cc
  row_of-id (x ∷ rs) key r e = ground (arith, eq_iff (id_of x) key, row_of-id rs key r)

  pub filter-All :
      (test : Row → Bool) (all rs : List Row)
      → All (λ r. row_of all (id_of r) ≡ some r) rs
      → All (λ r. (test r ≡ true) × (row_of all (id_of r) ≡ some r)) (filter test rs)
  filter-All test all [] h = tt
  filter-All test all (r ∷ rs) h = ground (arith, filter-All test all rs h.1)

  stored-cons :
      (new : Row) (all rs : List Row)
      → row_of all (id_of new) ≡ none
      → All (λ r. row_of all (id_of r) ≡ some r) rs
      → All (λ r. row_of (new ∷ all) (id_of r) ≡ some r) rs
  unfolding row_of
  stored-cons new all [] fresh h = tt
  stored-cons new all (r ∷ rs) fresh h =
      ground (arith, eq_iff (id_of new) (id_of r), stored-cons new all rs fresh h.1)

  pub IsKeyed-stored : (rs : List Row) → IsKeyed rs → All (λ r. row_of rs (id_of r) ≡ some r) rs
  unfolding row_of
  IsKeyed-stored [] k = tt
  IsKeyed-stored (r ∷ rs) k =
      ground (arith, eq_iff (id_of r) (id_of r), stored-cons r rs rs k.0 (IsKeyed-stored rs k.1))

  pub filter-nil :
      (test : Row → Bool) (rs : List Row) (key : String) (r : Row)
      → filter test rs ≡ []
      → row_of rs key ≡ some r
      → test r ≡ false
  unfolding row_of
  filter-nil test [] key r e h = cc
  filter-nil test (x ∷ rs) key r e h = ground (arith, filter-nil test rs key r)

  -- Keys stay apart in every part of the list that `find` takes.
  apart-stored :
      (key : String) (all rs : List Row)
      → row_of all key ≡ none
      → All (λ r. row_of all (id_of r) ≡ some r) rs
      → All (λ q. str_eq key (id_of q) ≡ false) rs
  apart-stored key all [] fresh h = tt
  apart-stored key all (q ∷ rs) fresh h =
      (ground (arith, eq_iff key (id_of q)), apart-stored key all rs fresh h.1)

  pub IsKeyed-Distinct : (rs : List Row) → IsKeyed rs → Distinct id_of rs
  IsKeyed-Distinct [] k = tt
  IsKeyed-Distinct (r ∷ rs) k =
      (apart-stored (id_of r) rs rs k.0 (IsKeyed-stored rs k.1), IsKeyed-Distinct rs k.1)

  -- The interface is met.
  unfoldable pub table_repository : Repository Row id_of
  unfolding row_of write
  table_repository = record {
    Table = (rs : List Row) × IsKeyed rs;
    find_one = λ t key. row_of t.0 key;
    find = λ t test before limit. limited limit (sorted before (filter test t.0));
    save = λ t r. (write t.0 r, write-IsKeyed t.0 r t.1);
    find_one-id = λ t key r e. row_of-id t.0 key r e;
    find_one-save = λ t r key. row_of-write t.0 r key;
    find-All = λ t test before limit.
        limited-All _ limit (sorted before (filter test t.0)) (
          sorted-All _ before (filter test t.0) (filter-All test t.0 t.0 (IsKeyed-stored t.0 t.1)));
    find-distinct = λ t test before limit.
        limited-Distinct id_of limit (sorted before (filter test t.0)) (
          sorted-Distinct id_of before (filter test t.0)
            (filter-Distinct id_of test t.0 (IsKeyed-Distinct t.0 t.1)));
    find-length = λ t test before n. length-take_le n (sorted before (filter test t.0));
    find-empty = λ t test before n key r e h.
        filter-nil test t.0 key r (sorted-nil before _ (taken-nil before n _ e)) h;
  }
