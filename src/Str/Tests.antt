-- ===== src/Str/Tests.antt =====
-- The theorems about kernel/string.c at concrete inputs.
use operating_system_se.Base.{◌≡◌, refl, ◌==◌, if◌then◌else◌}
use operating_system_se.Str.{Bytes, strncpy}
use operating_system_se.Str.{memmove}
use operating_system_se.Str.Move.{memmove_lem}

-- "ab" at address 10.
abbrev ab : Bytes
ab a = if a == 10 then 97 else if a == 11 then 98 else 0

strncpy-pads : strncpy (λ a. if a == 10 then 97 else if a == 11 then 0 else 9) 20 10 4 22 ≡ 0
unfolding strncpy
strncpy-pads = refl

-- The ranges overlap: two bytes go from 10 to 11.
memmove_lem_example : memmove ab 11 10 2 12 ≡ 98
memmove_lem_example = memmove_lem ab 11 10 2 12
