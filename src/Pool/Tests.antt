-- ===== src/Pool/Tests.antt =====
-- A pool of two items.
use secure_data_transmission.Base.{◌≡◌, refl, arith, some, [], ◌∷◌, pos}
use secure_data_transmission.Pool.{
  ItemPool, init, get_connection, release_connection, raii_statement,
}
use secure_data_transmission.Pool.Sharing.{
  Held, Uses, gets, releases, stop, more, Conserved, Uses-Conserved, statements,
  raii_statement-shared,
}

abbrev start : Held
start = record { pool = init 2; held = [] }

abbrev got : ItemPool
got = record { idle = 0 ∷ []; free = pos 1; cur = pos 1 }

abbrev given_back : ItemPool
given_back = record { idle = 0 ∷ 1 ∷ []; free = pos 2; cur = pos 0 }

takes : get_connection (init 2) ≡ some (1, got)
unfolding get_connection init
takes = refl

abbrev finish : Held
finish = record { pool = (release_connection (some 1) got).1; held = [] }

get_and_release : Uses start finish
get_and_release = more (gets start 1 got takes) (more (releases got 1 [] []) (stop finish))

start-Conserved : Conserved (1 ∷ 0 ∷ []) start
unfolding init
start-Conserved = record { items_kept = λ c. omega arith; free_is = refl; cur_is = refl }

Uses-Conserved_example : Conserved (1 ∷ 0 ∷ []) finish
Uses-Conserved_example = Uses-Conserved (1 ∷ 0 ∷ []) start finish get_and_release start-Conserved

raii_statement-shared_example :
    (statements 2 given_back ≡ some given_back)
    × ((q : ItemPool) × (raii_statement given_back ≡ some (0, q)))
raii_statement-shared_example = raii_statement-shared 0 (1 ∷ []) given_back refl
