-- ===== src/Client/Frames.antt =====
-- What a write of one kind leaves alone of the API server's abstract state.
use mathlib.Core.Path.{subst}
use unbind_operator.Base.{String, ◌≡◌, refl, sym, Option, none, some}
use unbind_operator.Kube.{Object}
use unbind_operator.Client.View.{
  Tracked, View, kind_of, meta_of, assign, read_back, put, remove, IsKeyed, IsKeyed-assign,
  IsKeyed-put,
}

-- A property of views that writes of one kind leave alone
abbrev pub IsStable : Tracked → (View → Type 0) → Type 0
IsStable t R =
    (namespace name : String) (entry : Option (Object (kind_of t))) (v : View)
    → R v
    → R (assign t namespace name entry v)

-- The views between two calls: keyed, and with a property that other kinds have established
abbrev pub Framed : (View → Type 0) → View → Type 0
Framed R v = IsKeyed v × R v

pub Framed-put :
    (t : Tracked) (R : View → Type 0)
    → IsStable t R
    → (o : Object (kind_of t)) (v : View) → Framed R v
    → Framed R (put t o v)
Framed-put t R stable o v (keyed, r) = (IsKeyed-put t o v keyed, stable _ _ _ v r)

pub Framed-remove :
    (t : Tracked) (R : View → Type 0)
    → IsStable t R
    → (namespace name : String) (v : View) → Framed R v
    → Framed R (remove t namespace name v)
Framed-remove t R stable namespace name v (keyed, r) =
    (IsKeyed-assign t namespace name none v keyed tt, stable namespace name none v r)

-- The same for writes under one key, and for deletions
abbrev pub IsStableAt : Tracked → (View → Type 0) → String → String → Type 0
IsStableAt t R namespace name =
    (entry : Option (Object (kind_of t))) (v : View) → R v → R (assign t namespace name entry v)

abbrev pub IsKept : Tracked → (View → Type 0) → String → String → Type 0
IsKept t R namespace name = (v : View) → R v → R (remove t namespace name v)

pub put-assign :
    (t : Tracked) (o : Object (kind_of t)) (namespace name : String) (v : View)
    → (meta_of t o).namespace ≡ namespace
    → (meta_of t o).name ≡ name
    → put t o v ≡ assign t namespace name (some (read_back t o)) v
put-assign t o namespace name v e e' = rw (← e, ← e') refl

pub Framed-put_at :
    (t : Tracked) (R : View → Type 0) (namespace name : String)
    → IsStableAt t R namespace name
    → (o : Object (kind_of t)) (v : View) → (meta_of t o).namespace ≡ namespace
    → (meta_of t o).name ≡ name
    → Framed R v
    → Framed R (put t o v)
Framed-put_at t R namespace name stable o v e e' (keyed, r) = (
  IsKeyed-put t o v keyed,
  subst R (sym (put-assign t o namespace name v e e')) (stable (some (read_back t o)) v r),
)

pub Framed-remove_at :
    (t : Tracked) (R : View → Type 0) (namespace name : String)
    → IsKept t R namespace name
    → (v : View) → Framed R v
    → Framed R (remove t namespace name v)
Framed-remove_at t R namespace name kept v (keyed, r) =
    (IsKeyed-assign t namespace name none v keyed tt, kept v r)
