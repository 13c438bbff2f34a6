-- ===== src/Messages/Coils/Tests.antt =====
-- The theorems on packed coils at the example of the Modbus specification.
use modbusgw.Base.{Bool, List, [], ◌∷◌, true, false, ◌≡◌, refl}
use modbusgw.Messages.Coils.{pack_loop, pack_coils, unpack_coils}
use modbusgw.Messages.Coils.RoundTrip.{unpack_coils-pack_coils}

abbrev ten_coils : List Bool
ten_coils = true ∷ false ∷ true ∷ true ∷ false ∷ false ∷ true ∷ true ∷ true ∷ false ∷ []

coils_packed : pack_coils ten_coils ≡ 0xCD ∷ 1 ∷ []
unfolding pack_coils pack_loop
coils_packed = refl

unpack_coils-pack_coils_example : unpack_coils (pack_coils ten_coils) 10 ≡ ten_coils
unpack_coils-pack_coils_example = unpack_coils-pack_coils ten_coils
