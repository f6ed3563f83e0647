-- ===== src/Repository/Rows.antt =====
-- Reading rows beside those that an operation writes.
use text.Mathlib.TextEquality.{eq_iff}
use mathlib.Core.Option.{some-injective}
use alive_human.Base.{
  Bool, true, false, String, List, [], ◌∷◌, some, ◌≡◌, ◌∙◌, ◌⊎◌, inl, inr, ap, sym, All, str_eq,
  Bool-cases,
}
use alive_human.Repository.{Repository}

module _ {Row : Type 0} {id_of : Row → String} (repo : Repository Row id_of) where
  -- Rows that pass a test are not the row under a key that fails it.
  pub others-All :
      (table : repo.Table) (test : Row → Bool) (key : String) (r : Row) (rows : List Row)
      → repo.find_one table key ≡ some r
      → test r ≡ false
      → All (λ p. (test p ≡ true) × (repo.find_one table (id_of p) ≡ some p)) rows
      → All (λ p. str_eq (id_of p) key ≡ false) rows
  others-All table test key r [] stored fails h = tt
  others-All table test key r (p ∷ rows) stored fails h = (
    differs (Bool-cases (str_eq (id_of p) key)),
    others-All table test key r rows stored fails h.1,
  )
    where
      differs :
          (str_eq (id_of p) key ≡ true) ⊎ (str_eq (id_of p) key ≡ false)
          → str_eq (id_of p) key ≡ false
      differs (inr distinct) = distinct
      differs (inl same) =
          let moved = (eq_iff (id_of p) key).0 same in
          let one : p ≡ r =
            some-injective p r (sym h.0.1 ∙ ap (repo.find_one table) moved ∙ stored) in
          cc (ap test one, h.0.0, fails)
