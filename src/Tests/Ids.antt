-- ===== src/Tests/Ids.antt =====
-- Ids made of bytes.
use esec_vault.Base.{◌≡◌, ◌≢◌, refl, Text, codes, arith}
use esec_vault.Group.Ids.{letter, write_letters, write_bytes, base32_lower}
use esec_vault.Group.Distinct.{AreNewIds, ids-AreNewIds}
use esec_vault.Tests.Toy.{bytes}

-- what RFC 4648 writes for these texts, in small letters and without padding
base32_hello : base32_lower (codes "hello") ≡ codes "nbswy3dp"
unfolding letter write_letters write_bytes base32_lower
base32_hello = refl

base32_foob : base32_lower (codes "foob") ≡ codes "mzxw6yq"
unfolding letter write_letters write_bytes base32_lower
base32_foob = refl

abbrev some_bytes : Text
some_bytes = bytes 15 7

abbrev other_bytes : Text
other_bytes = bytes 15 255

others : some_bytes ≢ other_bytes
others same = ground (arith, same)

ids-AreNewIds_example : AreNewIds some_bytes other_bytes
ids-AreNewIds_example = ids-AreNewIds some_bytes other_bytes refl refl refl refl others
