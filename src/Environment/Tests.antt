-- ===== src/Environment/Tests.antt =====
-- Runs of the environments, and the round trip at concrete ones.
use garden_linux.Common.{◌≡◌, refl, [], ◌∷◌, ok, err, Text, codes, text_eq, nat_eq}
use garden_linux.Common.Map
use garden_linux.Common.Map.{Map, UniqueKeys}
use garden_linux.Environment.{new_env, merge, array, invalid_format}
use garden_linux.Environment.Lines.{IsName, AllNames}
use garden_linux.Environment.RoundTrip.{new_env-array-merge, or_else}

abbrev image_env : Map Text Text
image_env = (codes "PATH", codes "/bin") ∷ (codes "LANG", codes "C") ∷ []

abbrev spec_env : Map Text Text
spec_env = (codes "PATH", codes "/usr/bin=x") ∷ []

array_run : array (merge image_env spec_env) ≡ codes "LANG=C" ∷ codes "PATH=/usr/bin=x" ∷ []
unfolding array merge Map.insert garden_linux.Environment.text_leb
array_run = refl

no_value : new_env (codes "PATH" ∷ []) ≡ err (invalid_format (codes "PATH"))
unfolding new_env garden_linux.Environment.split_n
no_value = refl

new_env-array-merge_example :
    (e : Map Text Text) × (new_env (array (merge image_env spec_env)) ≡ ok e)
    × ((k : Text) → Map.lookup k e ≡ or_else (Map.lookup k spec_env) (Map.lookup k image_env))
unfolding Map.has_key AllNames IsName
new_env-array-merge_example =
    new_env-array-merge image_env spec_env (refl, (refl, tt)) (refl, tt)
      (((λ e. cc), refl), (((λ e. cc), refl), tt)) (((λ e. cc), refl), tt)
