-- ===== src/Names/Tests.antt =====
-- Names made from a counter, and the theorems at concrete counters.
use garden_linux.Common.{◌%◌, ◌^◌, ◌≡◌, ◌↔◌, refl, length, codes, text_eq, nat_eq}
use garden_linux.Names.{container_id}
use garden_linux.Names.Distinct.{container_id-injective}

first_id : container_id 0 ≡ codes "00000000000"
unfolding container_id
first_id = refl

some_id : container_id 1023 ≡ codes "000000000vv"
unfolding container_id
some_id = refl

container_id-injective_example :
    ((container_id 5 ≡ container_id 6) ↔ (5 % 2 ^ 55 ≡ 6 % 2 ^ 55)) × (length (container_id 5) ≡ 11)
container_id-injective_example = container_id-injective 5 6
