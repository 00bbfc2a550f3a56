-- ===== src/Examples/Lists.antt =====
-- utils/common.go, set_float.go and set_string.go at short lists.
use wstester.Prelude.{ℕ, zero, suc, ◌≡◌, refl, false, List, [], ◌∷◌, arith, nat_eq, some}
use wstester.Prices.{IsOrdered, uni_price_search, uni_price_add, uni_price_remove}
use wstester.Prices.Search.{uni_price_search-Locates, Locates}
use wstester.Prices.Insert.{uni_price_add-Adds, Adds, IsAbsent}
use wstester.Prices.Remove.{uni_price_remove-Removes, Removes}

abbrev rising : List ℕ
rising = 7 ∷ 9 ∷ []

rising-IsOrdered : IsOrdered false rising
rising-IsOrdered zero zero h k = absurd (omega arith)
rising-IsOrdered zero (suc zero) h k = omega arith
rising-IsOrdered zero (suc (suc j)) h k = absurd (omega arith)
rising-IsOrdered (suc i) j h k = absurd (omega arith)

rising-IsAbsent : IsAbsent rising 8
rising-IsAbsent zero h e = absurd (omega arith)
rising-IsAbsent (suc zero) h e = absurd (omega arith)
rising-IsAbsent (suc (suc i)) h e = absurd (omega arith)

found : uni_price_search rising 9 false ≡ some 1
unfolding uni_price_search
found = refl

uni_price_search-Locates_example : Locates rising 9 (uni_price_search rising 9 false)
uni_price_search-Locates_example = uni_price_search-Locates rising 9 false rising-IsOrdered

uni_price_add-Adds_example : Adds false rising 8 (uni_price_add rising 8 false)
uni_price_add-Adds_example = uni_price_add-Adds rising 8 false rising-IsOrdered rising-IsAbsent

uni_price_remove-Removes_example : Removes rising 7 (uni_price_remove rising 7 false)
uni_price_remove-Removes_example = uni_price_remove-Removes rising 7 false rising-IsOrdered
