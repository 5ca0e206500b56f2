-- ===== src/Base/Run.antt =====
-- What a test by evaluation unfolds.
use package.carina.Base.Int.{
  gb_up, add64, sub64, mul64, quot, shr30, shl30, to_int64, sub_u64, add_u64, ◌+ℤ◌, ◌-ℤ◌, ◌*ℤ◌,
}
use package.carina.Base.Text.{
  to_lower, strip_prefix, has_prefix, trim_prefix, contains, before, split, parse_int64,
  parse_int64_value, slice_from, parse_uint64,
}
use package.carina.Base.Maps.{lookup, get_or, insert, erase, text_at}
use package.carina.Base.Sort.{sort_by}

unfoldable pub run : Unit {0}
unfolding gb_up add64 sub64 mul64 quot shr30 shl30 to_int64 sub_u64 add_u64 ◌+ℤ◌ ◌-ℤ◌ ◌*ℤ◌ to_lower
    strip_prefix has_prefix trim_prefix contains before split parse_int64 parse_int64_value
    slice_from parse_uint64 lookup get_or insert erase text_at sort_by
run = tt
