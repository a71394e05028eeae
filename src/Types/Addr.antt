-- ===== src/Types/Addr.antt =====
-- The comparison of addresses, `IOAddr::operator==` of includes/CommonTypes.h, and of identifiers.
use turbine_governor.Base.{◌≡◌, true, arith}
use turbine_governor.Base.DictLaws.{IsSame}
use turbine_governor.Types.{IoAddr, same_addr}

same_addr_refl : (a : IoAddr) → same_addr a a ≡ true
same_addr_refl a = ground arith

same_addr_sound : (a b : IoAddr) → same_addr a b ≡ true → a ≡ b
same_addr_sound a b h =
    let header : a.header ≡ b.header = ground arith in
    let mod_no : a.mod_no ≡ b.mod_no = ground arith in
    let channel : a.channel ≡ b.channel = ground arith in
    let num_bits : a.num_bits ≡ b.num_bits = ground arith in
    λ i. record { header = header i; mod_no = mod_no i; channel = channel i; num_bits = num_bits i }

pub same_addr-IsSame : IsSame same_addr
same_addr-IsSame = record { reflects = same_addr_refl; sound = same_addr_sound }
