-- ===== src/Builder/Resources.antt =====
-- The resource requirements of `BuildDeployment`. Megabytes are multiplied in int64.
pub mod Bounds
use unbind_operator.Base.{
  ℕ, ◌*◌, ◌%◌, ◌-◌, ◌^◌, String, ℤ, pos, negsuc, Option, none, some, [], if◌then◌else◌, ltb,
  is_positive, deref_or,
}
use unbind_operator.Base.Dict.{Dict, insert}
use unbind_operator.Api.{ResourceSpec}
use unbind_operator.Kube.{ResourceRequirements}

-- The int64 with the bits of a number that is not negative.
unfoldable pub to_int64 : ℕ → ℤ
to_int64 n = let m = n % 2 ^ 64 in if ltb m (2 ^ 63) then pos m else negsuc (2 ^ 64 - 1 - m)

-- `x*1000*1000`; the code multiplies only positive numbers.
unfoldable pub megabytes_to_bytes : ℤ → ℤ
unfolding to_int64
megabytes_to_bytes (pos x) = to_int64 (x * 1000000)
megabytes_to_bytes (negsuc x) = to_int64 ((2 ^ 64 - 1 - x) * 1000000)

-- `if x > 0 { if list == nil { list = … }; list[name] = value }`
abbrev pub require : String → ℤ → ℤ → Option (Dict ℤ) → Option (Dict ℤ)
require name x value resources =
    if is_positive x then some (insert name value (deref_or resources [])) else resources

unfoldable pub build_resources : Option ResourceSpec → ResourceRequirements
build_resources none = record { requests = none; limits = none }
build_resources (some r) = record {
  requests =
      require "memory" r.memory_requests_megabytes (megabytes_to_bytes r.memory_requests_megabytes)
        (require "cpu" r.cpu_requests_millicores r.cpu_requests_millicores none);
  limits =
      require "memory" r.memory_limits_megabytes (megabytes_to_bytes r.memory_limits_megabytes)
        (require "cpu" r.cpu_limits_millicores r.cpu_limits_millicores none);
}
