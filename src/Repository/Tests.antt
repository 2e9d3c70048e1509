-- ===== src/Repository/Tests.antt =====
-- Runs of the repository, and its theorems at a concrete one.
use garden_linux.Common.{ℕ, ◌≡◌, refl, List, [], ◌∷◌, none, some, Text, codes, text_eq, nat_eq}
use garden_linux.Common.Map
use garden_linux.Common.Map.{Map}
use garden_linux.Repository.{add, delete, find_by_handle}
use garden_linux.Repository.Latest.{Op, adds, deletes, run, latest, find_by_handle-run}

-- A container that is its handle and a number.
abbrev name_of : Text × ℕ → Text
name_of c = c.0

abbrev calls : List (Op (Text × ℕ))
calls =
    adds (codes "web", 1)
    ∷ adds (codes "db", 2)
    ∷ adds (codes "web", 3)
    ∷ deletes (codes "db", 2)
    ∷ []

find_run : find_by_handle (codes "web") (run name_of calls []) ≡ some (codes "web", 3)
unfolding find_by_handle run add delete Map.lookup Map.insert Map.delete
find_run = refl

find_by_handle-run_example :
    find_by_handle (codes "db") (run name_of calls []) ≡ latest name_of (codes "db") calls none
unfolding find_by_handle Map.lookup
find_by_handle-run_example = find_by_handle-run name_of calls [] (codes "db")
