-- ===== src/Registry/Tests.antt =====
-- Two destinations, the second of which is registered twice.
use vortara.Base.Sort.{sort_by}
use vortara.Base.{lookup, insert, ℕ, [], ◌∷◌, some, ◌≡◌, refl}
use vortara.Errors.{ok, err, already_registered}
use vortara.Registry.{Registry, destination, register, list}

abbrev one : Registry ℕ
one = record { batch_sources = []; streaming_sources = []; destinations = ("slack", 1) ∷ [] }

abbrev two : Registry ℕ
two = record one { destinations = ("slack", 1) ∷ ("restapi", 2) ∷ [] }

added : register destination one "restapi" (some 2) ≡ ok two
unfolding register lookup insert
added = refl

repeated :
    register destination two "restapi" (some 3) ≡ err (already_registered "destination" "restapi")
unfolding register lookup insert
repeated = refl

listed : list destination two ≡ "restapi" ∷ "slack" ∷ []
unfolding list sort_by
listed = refl
