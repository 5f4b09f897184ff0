-- ===== src/Examples/Addresses.antt =====
-- Addresses for src/socket/ipaddress.cpp, and the theorems on them.
use cpp_server_framework.Prelude.{◌≡◌, ◌↔◌, true, false, not, ◌&&◌, ◌||◌, Text, [], ◌∷◌, arith}
use cpp_server_framework.Address.{is_less, is_equal, count_bytes}
use cpp_server_framework.Address.Order.{is_less-is_equal}
use cpp_server_framework.Address.Ones.{ones, count_bytes-ones}

abbrev short : Text
short = 2 ∷ (0 ∷ [])

abbrev longer : Text
longer = 2 ∷ (0 ∷ (80 ∷ []))

abbrev other : Text
other = 10 ∷ (0 ∷ [])

is_less-is_equal_example :
    (is_less short longer && is_less longer short ≡ false)
    × (not (is_less short longer && is_less longer other) || is_less short other ≡ true)
    × (is_less short longer || (is_less longer short || is_equal short longer) ≡ true)
    × ((is_equal short longer ≡ true) ↔ (short ≡ longer))
is_less-is_equal_example = is_less-is_equal short longer other

count_bytes-ones_example : count_bytes 32 4294901760 ≡ ones 32 4294901760
count_bytes-ones_example = count_bytes-ones 32 32 4294901760 (omega arith) (omega arith)
