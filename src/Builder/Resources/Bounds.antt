-- ===== src/Builder/Resources/Bounds.antt =====
-- The memory quantities of `BuildDeployment`, in int64.
use unbind_operator.Base.{ℕ, ◌*◌, ◌≤◌, ◌<◌, ◌≡◌, ◌↔◌, pos, arith}
use unbind_operator.Builder.Resources.{megabytes_to_bytes}

-- The product is exact for as many megabytes as an int64 has room for, and for no other positive int64.
pub megabytes_to_bytes-exact_iff :
    (x : ℕ)
    → x < 9223372036854775808
    → (megabytes_to_bytes (pos x) ≡ pos (x * 1000000)) ↔ (x ≤ 9223372036854)
unfolding megabytes_to_bytes
megabytes_to_bytes-exact_iff x h = (λ e. ground arith, λ le. ground arith)
