-- ===== src/Identity/Tests.antt =====
-- One identifier, and witnesses.
use mathlib.Core.List.{List}
use gpu_rental_platform.Common.{◌≡◌, refl, true, some, ok}
use gpu_rental_platform.Identity.{Bytes, Entropy, new_uuid, is_uuid}
use gpu_rental_platform.Identity.Laws.{new_uuid-is_uuid}

abbrev value : Bytes
value = List.◌∷◌ 1 (
    List.◌∷◌ 35 (
      List.◌∷◌ 69 (
        List.◌∷◌ 103 (
          List.◌∷◌ 137 (
            List.◌∷◌ 171 (
              List.◌∷◌ 205 (
                List.◌∷◌ 239 (
                  List.◌∷◌ 1 (
                    List.◌∷◌ 35 (
                      List.◌∷◌ 69 (
                        List.◌∷◌ 103 (
                          List.◌∷◌ 137
                            (List.◌∷◌ 171 (List.◌∷◌ 205 (List.◌∷◌ 239 List.[])))))))))))))))

abbrev entropy : Entropy
entropy k = some value

made : new_uuid entropy 0 ≡ ok "01234567-89ab-4def-8123-456789abcdef"
unfolding new_uuid
made = refl

new_uuid-is_uuid_example : is_uuid "01234567-89ab-4def-8123-456789abcdef" ≡ true
new_uuid-is_uuid_example =
    new_uuid-is_uuid entropy 0 value "01234567-89ab-4def-8123-456789abcdef" refl refl made
