-- ===== src/Idmap/Examples.antt =====
-- The theorems about names that are numbers applied to decimal numbers.
use mynfs.Base.{ℕ, ◌+◌, ◌^◌, ◌≡◌, refl, inl, true, none, some, ltb, if◌then◌else◌, arith}
use mynfs.Idmap.Names.{Mapper, mapped, map_name_to_id, map_id_to_name}
use mynfs.Idmap.Numbers.{map_name_to_id-map_id_to_name, map_name_to_id_wraps}
use mynfs.Idmap.Decimal.{decimal}

-- A mapper that knows no names, in a namespace that has every id but the last.
abbrev no_names : Mapper ℕ
no_names = record {
  lookup_id = λ name. none;
  lookup_name = λ id. none;
  make_id = λ id. if ltb id 0xffff_ffff then some id else none;
  from_id = λ k. k;
}

map_name_to_id-map_id_to_name_example :
    map_name_to_id decimal no_names ((map_id_to_name decimal no_names true 1000 128).0)
    ≡ mapped 1000
map_name_to_id-map_id_to_name_example =
    map_name_to_id-map_id_to_name decimal no_names true 1000 128 (omega arith) refl (omega arith)
      (inl refl)

-- The number 2 ^ 32 is taken for the user 0.
map_name_to_id_wraps_example :
    map_name_to_id decimal no_names (decimal.print_u (0 + 2 ^ 32))
    ≡ map_name_to_id decimal no_names (decimal.print_u 0)
map_name_to_id_wraps_example = map_name_to_id_wraps decimal no_names 0 (omega arith)
