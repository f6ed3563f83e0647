-- ===== src/Balances/Many.antt =====
-- The balances of several tokens.
use text.Mathlib.TextEquality.{eq_iff}
use alive_human.Base.{◌||◌, ◌≡◌, String, List, [], ◌∷◌, arith, map}
use alive_human.Base.Dict.{Dict, insert, has, lookup-insert}
use alive_human.Base.Texts.{is_in}
use alive_human.Balances.{BalanceService, Chains, Moment, get_one, get_multiple_balances}

-- The results of several tokens have an entry for just those tokens and what was there before.
pub get_multiple_balances-has :
    (chains : Chains) (address key : String) (ts : List (String × Moment)) (s : BalanceService)
    (results : Dict String)
    → has key (get_multiple_balances chains address ts s results).1
      ≡ (has key results || is_in key (map (λ (t : String × Moment). t.0) ts))
unfolding get_multiple_balances
get_multiple_balances-has chains address key [] s results = ground arith
get_multiple_balances-has chains address key (t ∷ ts) s results =
    let (after, balance, called) = get_one chains address t.0 t.1 s in
    ground (
      arith,
      get_multiple_balances-has chains address key ts after (insert t.0 balance results),
      lookup-insert t.0 key balance results,
      eq_iff t.0 key,
    )
